-- ===== src/Protocol/Driver/Roster.antt =====
-- protocol/src/driver.rs: who is seated in the lobby.
use ten_cent_poker_client.Prelude.{
  ℕ, ◌≡◌, refl, ap, sym, subst, ◌∙◌, Bool, true, false, ◌&&◌, ◌||◌, not, Option, none, some, List,
  [], ◌∷◌, ◌++◌, if◌then◌else◌, arith, ◌≤◌, ltb, ltb→le, Outcome, ok, length, keep, Bool-cases, inl,
  inr,
}
use ten_cent_poker_client.Prelude.Exec.{Exec, pure, fail, maybe, ◌>>◌}
use ten_cent_poker_client.Prelude.Ordered.{member}
use ten_cent_poker_client.Protocol.Setting.{Setting, IsEquality, TableMessage}
use ten_cent_poker_client.Protocol.Driver.{
  Network, DriverError, waiting, Event, tick, send_result, human_action, table_uri,
  reachability_warning, peer_connected, peer_disconnected, message, deal_received, dial_failed,
  closed, deadline,
}
use ten_cent_poker_client.Protocol.Driver.Lobby.{
  is_join, Lobby, new_lobby, seat_peer, lobby_event, lobby_step, lobby,
}

module _ (W : Setting) (N : Network W) where
  open W use {PeerId, peer_eq}
  open N use {decode}

  -- Whether an event is a `JoinTable` of `g`, and whether one of several is.
  abbrev pub joining : PeerId → Event W → Bool
  joining g (message from bytes) = peer_eq from g && maybe (decode bytes) false is_join
  joining g e = false

  abbrev pub has_joined : PeerId → List (Event W) → Bool
  has_joined g [] = false
  has_joined g (e ∷ events) = joining g e || has_joined g events

  -- Everybody is seated once.
  abbrev pub AllOnce : List PeerId → Type 0
  AllOnce [] = Unit
  AllOnce (p ∷ roster) = (member peer_eq roster p ≡ false) × AllOnce roster

  module _ (equality : IsEquality W) where
    member-append :
        (xs ys : List PeerId) (g : PeerId)
        → member peer_eq (xs ++ ys) g ≡ (member peer_eq xs g || member peer_eq ys g)
    member-append [] ys g = refl
    member-append (x ∷ xs) ys g = ground (arith, member-append xs ys g)

    apart : (x p : PeerId) → peer_eq x p ≡ false → peer_eq p x ≡ false
    apart x p h = elim (Bool-cases (peer_eq p x)) [
      | inl e ↦
          let q = ap (peer_eq x) (equality.sound p x e) in ground (arith, q, equality.reflexive x)
      | inr e ↦ e
    ]

    AllOnce-push :
        (xs : List PeerId) (p : PeerId)
        → member peer_eq xs p ≡ false
        → AllOnce xs
        → AllOnce (xs ++ p ∷ [])
    AllOnce-push [] p h once = (refl, tt)
    AllOnce-push (x ∷ xs) p h once = (
      ground (arith, member-append xs (p ∷ []) x, apart x p),
      AllOnce-push xs p (ground arith) once.1,
    )

    member-keep :
        (q : PeerId) (xs : List PeerId) (g : PeerId)
        → member peer_eq xs g ≡ false
        → member peer_eq (keep (λ x. not (peer_eq x q)) xs) g ≡ false
    member-keep q [] g h = refl
    member-keep q (x ∷ xs) g h = ground (arith, member-keep q xs g)

    AllOnce-keep :
        (q : PeerId) (xs : List PeerId) → AllOnce xs → AllOnce (keep (λ x. not (peer_eq x q)) xs)
    AllOnce-keep q [] once = tt
    AllOnce-keep q (x ∷ xs) once = elim (Bool-cases (peer_eq x q)) [
      | inl e ↦ rw e (AllOnce-keep q xs once.1)
      | inr e ↦ rw e (member-keep q xs x once.0, AllOnce-keep q xs once.1)
    ]

    -- Everybody is seated once, and was seated before or has joined.
    abbrev Seated : Lobby W → List (Event W) → Lobby W → Type 0
    Seated before events l =
        AllOnce l.roster
        × ((g : PeerId)
            → member peer_eq l.roster g ≡ true
            → (has_joined g events || member peer_eq before.roster g) ≡ true)

    module _ (l : Lobby W) (once : AllOnce l.roster) where
      AllOnce-seat_peer : (p : PeerId) → AllOnce (seat_peer W p l).roster
      unfolding seat_peer
      AllOnce-seat_peer p = elim (Bool-cases (member peer_eq l.roster p)) [
        | inl there ↦ rw there once
        | inr new ↦ rw new (AllOnce-push l.roster p new once)
      ]

      AllOnce-event : (e : Event W) → AllOnce (lobby_event W N e l).roster
      unfolding lobby_event
      AllOnce-event (message from bytes) = joined (decode bytes)
        where
          chosen : (b : Bool) → AllOnce (if b then seat_peer W from l else l).roster
          chosen true = AllOnce-seat_peer from
          chosen false = once

          joined :
              (o : Option TableMessage)
              → AllOnce (maybe o l λ msg. if is_join msg then seat_peer W from l else l).roster
          joined none = once
          joined (some msg) = chosen (is_join msg)
      AllOnce-event (peer_disconnected p) = AllOnce-keep p l.roster once
      AllOnce-event tick = once
      AllOnce-event (send_result key target succeeded) = once
      AllOnce-event (human_action action) = once
      AllOnce-event (deal_received author bytes) = once
      AllOnce-event (table_uri u) = once
      AllOnce-event (reachability_warning r) = once
      AllOnce-event (peer_connected p) = once
      AllOnce-event dial_failed = once
      AllOnce-event closed = once
      AllOnce-event deadline = once

    member-keep-true :
        (q : PeerId) (xs : List PeerId) (g : PeerId)
        → member peer_eq (keep (λ x. not (peer_eq x q)) xs) g ≡ true
        → member peer_eq xs g ≡ true
    member-keep-true q [] g h = h
    member-keep-true q (x ∷ xs) g h = ground (arith, member-keep-true q xs g)

    module _ (l : Lobby W) (g : PeerId) where
      member-seat_peer :
          (p : PeerId)
          → member peer_eq (seat_peer W p l).roster g ≡ true
          → (peer_eq p g || member peer_eq l.roster g) ≡ true
      unfolding seat_peer
      member-seat_peer p h = ground (arith, member-append l.roster (p ∷ []) g)

      member-event :
          (e : Event W)
          → member peer_eq (lobby_event W N e l).roster g ≡ true
          → (joining g e || member peer_eq l.roster g) ≡ true
      unfolding lobby_event
      member-event (message from bytes) h = joined (decode bytes) h
        where
          joined :
              (o : Option TableMessage)
              → member peer_eq
                  (maybe o l λ msg. if is_join msg then seat_peer W from l else l).roster
                  g
                ≡ true
              → (peer_eq from g && maybe o false is_join || member peer_eq l.roster g) ≡ true
          joined none h = ground arith
          joined (some msg) h = ground (arith, member-seat_peer from)
      member-event (peer_disconnected p) h = member-keep-true p l.roster g h
      member-event tick h = h
      member-event (send_result key target succeeded) h = h
      member-event (human_action action) h = h
      member-event (deal_received author bytes) h = h
      member-event (table_uri u) h = h
      member-event (reachability_warning r) h = h
      member-event (peer_connected p) h = h
      member-event dial_failed h = h
      member-event closed h = h
      member-event deadline h = h

    stepped :
        (e : Event W) (l : Lobby W) (m : Exec (Lobby W) (DriverError W N) (List (Event W)))
        (rest : List (Event W))
        → ((lobby_step W N e >> m) l).0 ≡ ok rest
        → (lobby_step W N e >> m) l ≡ m (lobby_event W N e l)
    unfolding lobby_step lobby_event
    stepped deadline l m rest h = cc
    stepped closed l m rest h = cc
    stepped e l m rest h = refl

    -- What the loop has come to.
    abbrev Met :
        ℕ → Lobby W → List (Event W) → Outcome (DriverError W N) (List (Event W)) × Lobby W → Type 0
    Met min_players before events q = (min_players ≤ length q.1.roster) × Seated before events q.1

    branch :
        (few : Bool) (m : Exec (Lobby W) (DriverError W N) (List (Event W)))
        (events rest : List (Event W)) (l : Lobby W)
        (P : Outcome (DriverError W N) (List (Event W)) × Lobby W → Type 0)
        → (few ≡ true → (m l).0 ≡ ok rest → P (m l))
        → (few ≡ false → P (ok events, l))
        → ((if few then m else pure events) l).0 ≡ ok rest
        → P ((if few then m else pure events) l)
    branch true m events rest l P k n h = k refl h
    branch false m events rest l P k n h = n refl

    later :
        (a b c n : Bool) → (b || n) ≡ true → (n ≡ true → (a || c) ≡ true) → ((a || b) || c) ≡ true
    later a b c n h k = ground arith

    already : (a c : Bool) → c ≡ true → (a || c) ≡ true
    already a c h = ground arith

    Seated-event :
        (e : Event W) (l : Lobby W) (events : List (Event W)) (l' : Lobby W)
        → Seated (lobby_event W N e l) events l'
        → Seated l (e ∷ events) l'
    Seated-event e l events l' (once, from) = (
      once,
      λ g m.
          later (joining g e) (has_joined g events) (member peer_eq l.roster g)
            (member peer_eq (lobby_event W N e l).roster g) (from g m) (member-event l g e),
    )

    lobby-Met :
        (min_players : ℕ) (events : List (Event W)) (l : Lobby W) (rest : List (Event W))
        → AllOnce l.roster
        → (lobby W N min_players events l).0 ≡ ok rest
        → Met min_players l events (lobby W N min_players events l)
    unfolding lobby
    lobby-Met min_players [] l rest once h =
        branch (ltb (length l.roster) min_players) (fail waiting) [] rest l (Met min_players l [])
          (λ few g. cc) (λ enough. (ltb→le (length l.roster) min_players enough, (once, λ g m. m)))
          h
    lobby-Met min_players (e ∷ events) l rest once h =
        let more = lobby W N min_players events in
        let l' = lobby_event W N e l in
        branch (ltb (length l.roster) min_players) (lobby_step W N e >> more) (e ∷ events) rest l
          (Met min_players l (e ∷ events))
          (λ few g.
            let p = stepped e l more rest g in
            let ih = lobby-Met min_players events l' rest (AllOnce-event l once e) (
              sym (ap (λ (q : Outcome (DriverError W N) (List (Event W)) × Lobby W). q.0) p) ∙ g) in
            subst (Met min_players l (e ∷ events)) (sym p)
              (ih.0, Seated-event e l events (more l').1 ih.1))
          (λ enough. (
            ltb→le (length l.roster) min_players enough,
            (once, λ g m. already (has_joined g (e ∷ events)) (member peer_eq l.roster g) m),
          ))
          h

    -- When the host's lobby ends, as many are seated as the options ask for, everybody once, and
    -- nobody but the host and those whose `JoinTable` was among the events.
    pub lobby-AllOnce :
        (min_players : ℕ) (events rest : List (Event W)) (me g : PeerId)
        → (lobby W N min_players events (new_lobby W me)).0 ≡ ok rest
        → (min_players ≤ length (lobby W N min_players events (new_lobby W me)).1.roster)
          × AllOnce (lobby W N min_players events (new_lobby W me)).1.roster
          × ((not (member peer_eq (lobby W N min_players events (new_lobby W me)).1.roster g)
                || has_joined g events
                || peer_eq me g)
              ≡ true)
    unfolding new_lobby
    lobby-AllOnce min_players events rest me g h =
        let met = lobby-Met min_players events (new_lobby W me) rest (refl, tt) h in
        (met.0, met.1.0, alone _ (has_joined g events) (peer_eq me g) (met.1.1 g))
      where
        alone :
            (m a c : Bool)
            → (m ≡ true → (a || (if c then true else false)) ≡ true)
            → (not m || a || c) ≡ true
        alone true a c k = let j = k refl in ground arith
        alone false a c k = refl
