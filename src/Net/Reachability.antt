-- ===== src/Net/Reachability.antt =====
-- net/src/reachability.rs: the class of an IP address, and of a multiaddr. An IPv4 address is its four
-- octets and an IPv6 address its eight segments, with Rust's predicates on them written out. A mask
-- test such as `(o[1] & 0xc0) == 0x40` is a test on the high bits, by division. A multiaddr is the
-- list of its protocols, of which only the two with an IP address matter.
use ten_cent_poker_client.Prelude.{
  ℕ, ◌+◌, ◌*◌, ◌/◌, ◌%◌, ◌≤◌, ◌<◌, ◌≡◌, Bool, true, false, ◌&&◌, ◌||◌, Option, none, some, List, [],
  ◌∷◌, arith, ◌==◌, ==→eq, Bool-cases, ◌≢◌, leb, if◌then◌else◌, inl, inr, ◌⊎◌,
}

pub data Reachability : Type 0 where
  publicly_routable private_lan cgnat_likely loopback : Reachability

-- `Ipv4Addr`, by `octets`.
pub record Ipv4Addr : Type 0 where
  pub o0 : ℕ
  pub o1 : ℕ
  pub o2 : ℕ
  pub o3 : ℕ

-- `Ipv6Addr`, by `segments`.
pub record Ipv6Addr : Type 0 where
  pub s0 : ℕ
  pub s1 : ℕ
  pub s2 : ℕ
  pub s3 : ℕ
  pub s4 : ℕ
  pub s5 : ℕ
  pub s6 : ℕ
  pub s7 : ℕ

pub data IpAddr : Type 0 where
  v4 : Ipv4Addr → IpAddr
  v6 : Ipv6Addr → IpAddr

pub data Protocol : Type 0 where
  ip4 : Ipv4Addr → Protocol
  ip6 : Ipv6Addr → Protocol
  other : Protocol

unfoldable pub is_internet_routable : Reachability → Bool
is_internet_routable publicly_routable = true
is_internet_routable private_lan = false
is_internet_routable cgnat_likely = false
is_internet_routable loopback = false

-- `Ipv4Addr::is_private`, `is_link_local`, `is_broadcast` and `is_unspecified` of the standard library.
abbrev pub is_private : Ipv4Addr → Bool
is_private a =
    (a.o0 == 10)
    || ((a.o0 == 172) && leb 16 a.o1 && leb a.o1 31)
    || ((a.o0 == 192) && (a.o1 == 168))

abbrev pub is_link_local : Ipv4Addr → Bool
is_link_local a = (a.o0 == 169) && (a.o1 == 254)

abbrev pub is_broadcast : Ipv4Addr → Bool
is_broadcast a = (a.o0 == 255) && (a.o1 == 255) && (a.o2 == 255) && (a.o3 == 255)

abbrev pub is_unspecified_v4 : Ipv4Addr → Bool
is_unspecified_v4 a = (a.o0 == 0) && (a.o1 == 0) && (a.o2 == 0) && (a.o3 == 0)

unfoldable pub classify_ipv4 : Ipv4Addr → Reachability
classify_ipv4 a =
    if a.o0 == 127
    then loopback
    else (if (a.o0 == 100) && (a.o1 / 64 == 1)
        then cgnat_likely
        else (if is_private a || is_link_local a
            then private_lan
            else (if (a.o0 == 0) || is_broadcast a || is_unspecified_v4 a
                then private_lan
                else publicly_routable)))

-- The first six segments of the loopback and the unspecified address are 0.
abbrev pub starts_with_zeros : Ipv6Addr → Bool
starts_with_zeros a = (a.s0 == 0) && (a.s1 == 0) && (a.s2 == 0) && (a.s3 == 0) && (a.s4 == 0)

-- `Ipv6Addr::to_ipv4_mapped`: `::ffff:a.b.c.d`.
abbrev pub to_ipv4_mapped : Ipv6Addr → Option Ipv4Addr
to_ipv4_mapped a =
    if starts_with_zeros a && (a.s5 == 65535)
    then some (record { o0 = a.s6 / 256; o1 = a.s6 % 256; o2 = a.s7 / 256; o3 = a.s7 % 256 })
    else none

-- The tests behind the one for a mapped IPv4 address.
unfoldable pub classify_unmapped : Ipv6Addr → Reachability
classify_unmapped a =
    if a.s0 / 512 == 126
    then private_lan
    else (if a.s0 / 64 == 1018
        then private_lan
        else (if starts_with_zeros a && (a.s5 == 0) && (a.s6 == 0) && (a.s7 == 0)
            then private_lan
            else publicly_routable))

unfoldable pub classify_ipv6 : Ipv6Addr → Reachability
classify_ipv6 a =
    if starts_with_zeros a && (a.s5 == 0) && (a.s6 == 0) && (a.s7 == 1)
    then loopback
    else elim (to_ipv4_mapped a) [ some mapped ↦ classify_ipv4 mapped | none ↦ classify_unmapped a ]

unfoldable pub classify_ip : IpAddr → Reachability
classify_ip (v4 a) = classify_ipv4 a
classify_ip (v6 a) = classify_ipv6 a

unfoldable pub classify_multiaddr : List Protocol → Option Reachability
classify_multiaddr [] = none
classify_multiaddr (ip4 a ∷ rest) = some (classify_ipv4 a)
classify_multiaddr (ip6 a ∷ rest) = some (classify_ipv6 a)
classify_multiaddr (other ∷ rest) = classify_multiaddr rest

unfoldable pub is_dialable : List Protocol → Bool
is_dialable addr = elim (classify_multiaddr addr) [ some r ↦ is_internet_routable r | none ↦ true ]

-- An IPv4 address as one number.
abbrev pub ipv4_number : Ipv4Addr → ℕ
ipv4_number a = ((a.o0 * 256 + a.o1) * 256 + a.o2) * 256 + a.o3

-- The number lies in the block of `size` addresses from `base` on.
abbrev pub InBlock : ℕ → ℕ → ℕ → Type 0
InBlock base size n = (base ≤ n) × (n < base + size)

-- The blocks of each class, as the RFCs give them.
abbrev pub Loopback : ℕ → Type 0
Loopback n = InBlock 2130706432 16777216 n

abbrev pub Shared : ℕ → Type 0
Shared n = InBlock 1681915904 4194304 n

abbrev pub Local : ℕ → Type 0
Local n =
    InBlock 167772160 16777216 n
    ⊎ InBlock 2886729728 1048576 n
    ⊎ InBlock 3232235520 65536 n
    ⊎ InBlock 2851995648 65536 n
    ⊎ InBlock 0 16777216 n
    ⊎ (n ≡ 4294967295)

-- What the class of an address says of its number.
abbrev pub HasClass : Reachability → ℕ → Type 0
HasClass loopback n = Loopback n
HasClass cgnat_likely n = Shared n
HasClass private_lan n = Local n
HasClass publicly_routable n = (¬ Loopback n) × (¬ Shared n) × (¬ Local n)

cgnat_octets :
    (a : Ipv4Addr)
    → ((a.o0 == 100) && (a.o1 / 64 == 1)) ≡ true
    → (a.o0 ≡ 100) × (64 ≤ a.o1) × (a.o1 < 128)
cgnat_octets a e = ground arith

not_cgnat_octets :
    (a : Ipv4Addr)
    → ((a.o0 == 100) && (a.o1 / 64 == 1)) ≡ false
    → (a.o0 ≢ 100) ⊎ (a.o1 < 64) ⊎ (128 ≤ a.o1)
not_cgnat_octets a e = ground arith

local_octets :
    (a : Ipv4Addr)
    → (is_private a || is_link_local a) ≡ true
    → (a.o0 ≡ 10)
      ⊎ ((a.o0 ≡ 172) × (16 ≤ a.o1) × (a.o1 ≤ 31))
      ⊎ ((a.o0 ≡ 192) × (a.o1 ≡ 168))
      ⊎ ((a.o0 ≡ 169) × (a.o1 ≡ 254))
local_octets a e = ground arith

not_local_octets :
    (a : Ipv4Addr)
    → (is_private a || is_link_local a) ≡ false
    → (a.o0 ≢ 10)
      × ((a.o0 ≢ 172) ⊎ (a.o1 < 16) ⊎ (31 < a.o1))
      × ((a.o0 ≢ 192) ⊎ (a.o1 ≢ 168))
      × ((a.o0 ≢ 169) ⊎ (a.o1 ≢ 254))
not_local_octets a e = ground arith

special_octets :
    (a : Ipv4Addr)
    → ((a.o0 == 0) || is_broadcast a || is_unspecified_v4 a) ≡ true
    → (a.o0 ≡ 0) ⊎ ((a.o0 ≡ 255) × (a.o1 ≡ 255) × (a.o2 ≡ 255) × (a.o3 ≡ 255))
special_octets a e = ground arith

not_special_octets :
    (a : Ipv4Addr)
    → ((a.o0 == 0) || is_broadcast a || is_unspecified_v4 a) ≡ false
    → (a.o0 ≢ 0) × ((a.o0 ≢ 255) ⊎ (a.o1 ≢ 255) ⊎ (a.o2 ≢ 255) ⊎ (a.o3 ≢ 255))
not_special_octets a e = ground arith

module _ (a : Ipv4Addr) (h1 : a.o1 < 256) (h2 : a.o2 < 256) (h3 : a.o3 < 256) where
  outside-Loopback : (a.o0 == 127) ≡ false → ¬ Loopback (ipv4_number a)
  outside-Loopback e (lo, hi) = ground arith

  outside-Shared : ((a.o0 == 100) && (a.o1 / 64 == 1)) ≡ false → ¬ Shared (ipv4_number a)
  outside-Shared e (lo, hi) = omega (arith, not_cgnat_octets a e)

outside-Local :
    (a : Ipv4Addr)
    → a.o0 < 256
    → a.o1 < 256
    → a.o2 < 256
    → a.o3 < 256
    → (is_private a || is_link_local a) ≡ false
    → ((a.o0 == 0) || is_broadcast a || is_unspecified_v4 a) ≡ false
    → ¬ Local (ipv4_number a)
outside-Local a h0 h1 h2 h3 e f l =
    let (p, q, r, t) = not_local_octets a e in
    let (z, b) = not_special_octets a f in
    elim l [
      | inl (lo, hi) ↦ omega (arith, p)
      | inr (inl (lo, hi)) ↦ omega (arith, q)
      | inr (inr (inl (lo, hi))) ↦ omega (arith, r)
      | inr (inr (inr (inl (lo, hi)))) ↦ omega (arith, t)
      | inr (inr (inr (inr (inl (lo, hi))))) ↦ omega (arith, z)
      | inr (inr (inr (inr (inr top)))) ↦ omega (arith, b)
    ]

-- Each class of `classify_ipv4` is a set of address blocks: loopback is 127.0.0.0/8, carrier-grade NAT
-- is 100.64.0.0/10, the private class is 10.0.0.0/8, 172.16.0.0/12, 192.168.0.0/16, 169.254.0.0/16,
-- 0.0.0.0/8 and the broadcast address, and an address is publicly routable if it lies in none of
-- these. The octets are below 256.
pub classify_ipv4-HasClass :
    (a : Ipv4Addr)
    → a.o0 < 256
    → a.o1 < 256
    → a.o2 < 256
    → a.o3 < 256
    → HasClass (classify_ipv4 a) (ipv4_number a)
unfolding classify_ipv4
classify_ipv4-HasClass a h0 h1 h2 h3 = elim (Bool-cases (a.o0 == 127)) [
  | inl home ↦ let at = ==→eq a.o0 127 home in rw home (omega arith)
  | inr abroad ↦ elim (Bool-cases ((a.o0 == 100) && (a.o1 / 64 == 1))) [
    | inl cgnat ↦ let at = cgnat_octets a cgnat in rw (abroad, cgnat) (omega arith, omega arith)
    | inr not_cgnat ↦ elim (Bool-cases (is_private a || is_link_local a)) [
      | inl local ↦
          let at = local_octets a local in
          rw (abroad, not_cgnat, local)
            (elim at [
              | inl ten ↦ inl (omega arith, omega arith)
              | inr (inl p) ↦ inr (inl (omega arith, omega arith))
              | inr (inr (inl p)) ↦ inr (inr (inl (omega arith, omega arith)))
              | inr (inr (inr p)) ↦ inr (inr (inr (inl (omega arith, omega arith))))
            ])
      | inr not_local ↦ elim (Bool-cases ((a.o0 == 0) || is_broadcast a || is_unspecified_v4 a)) [
        | inl special ↦
            let at = special_octets a special in
            rw (abroad, not_cgnat, not_local, special)
              (elim at [
                | inl zero_octet ↦ inr (inr (inr (inr (inl (omega arith, omega arith)))))
                | inr p ↦ inr (inr (inr (inr (inr (omega arith)))))
              ])
        | inr public ↦
            rw (abroad, not_cgnat, not_local, public)
              (
                outside-Loopback a h1 h2 h3 abroad,
                outside-Shared a h1 h2 h3 not_cgnat,
                outside-Local a h0 h1 h2 h3 not_local public,
              )
      ]
    ]
  ]
]
