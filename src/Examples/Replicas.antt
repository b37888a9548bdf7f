-- ===== src/Examples/Replicas.antt =====
-- The theorems about the messages of the deal and the replicas of the table, each at an example.
use ten_cent_poker_client.Prelude.{
  ℕ, ◌≡◌, ◌≢◌, refl, arith, false, List, [], ◌∷◌, ok, ◌>>=◌, add64, rem64, index, write, ◌+◌,
  length, range_from,
}
use ten_cent_poker_client.Prelude.Exec.{Rejects}
use ten_cent_poker_client.Cards.{Card}
use ten_cent_poker_client.Hand.Dealing.{deal_hole, deal_pass}
use ten_cent_poker_client.Deal.Wire.{
  IsCodec, serialize_key, deserialize_key, serialize_shuffle, deserialize_shuffle, serialize_reveal,
  deserialize_reveal,
}
use ten_cent_poker_client.Deal.Peer.{
  KeyAnnouncement, ShuffleMessage, RevealMessage, finalize_aggregate_key,
}
use ten_cent_poker_client.Deal.RoundTrip.{
  deserialize_key-serialize_key, deserialize_shuffle-serialize_shuffle,
  deserialize_reveal-serialize_reveal,
}
use ten_cent_poker_client.Protocol.Setting.{flop, hole, key_announce, act}
use ten_cent_poker_client.Protocol.Bot.{check}
use ten_cent_poker_client.Protocol.Layout.{DeckLayout, new_layout}
use ten_cent_poker_client.Protocol.Agreement.{LaidOut, new_layout-LaidOut}
use ten_cent_poker_client.Protocol.Mental.Distinct.{TokensOnce}
use ten_cent_poker_client.Protocol.Mental.{MentalDeal, shuffle}
use ten_cent_poker_client.Protocol.Mental.Once.{
  DealCall, send_shuffle, take_shuffle, send_community, take_reveal, send_hole, deal_calls,
  deal_calls-TokensOnce,
}
use ten_cent_poker_client.Protocol.Table.{deal_seat_of, position_from, is_mental}
use ten_cent_poker_client.Protocol.Mental.Turns.{shufflers, deal_calls-shufflers}
use ten_cent_poker_client.Deal.Order.{ingest_keys, exchange, ingest_keys-Reorders}
use ten_cent_poker_client.Protocol.Table.Handle.{handle}
use ten_cent_poker_client.Protocol.Table.Authority.{is_authorised, handle-Rejects}
use ten_cent_poker_client.Protocol.Table.Replay.{Call, receive, deal_step}
use ten_cent_poker_client.Examples.Tables.{queens, tens}
use ten_cent_poker_client.Examples.Toy.{toy_scheme, toy_codec, toy, toy_deal, dealt_table}

toy_codec-IsCodec : IsCodec toy_codec
toy_codec-IsCodec = record {
  bytes_of = λ n. n ∷ [];
  serializes = λ n. refl;
  deserializes = λ n. refl;
  short = λ n. omega arith;
}

abbrev announcement : KeyAnnouncement toy_scheme
announcement = record { seat = 1; public = 6; proof = 0; info = 2 }

deserialize_key_example :
    (serialize_key toy_scheme toy_codec toy_codec toy_codec announcement
      >>= deserialize_key toy_scheme toy_codec toy_codec toy_codec)
    ≡ ok announcement
deserialize_key_example =
    deserialize_key-serialize_key toy_scheme toy_codec toy_codec toy_codec toy_codec-IsCodec
      toy_codec-IsCodec toy_codec-IsCodec announcement (omega arith)

abbrev shuffled : ShuffleMessage toy_scheme
shuffled = record { seat = 1; deck = 11 ∷ 10 ∷ []; proof = 0 }

deserialize_shuffle_example :
    (serialize_shuffle toy_scheme toy_codec toy_codec shuffled
      >>= deserialize_shuffle toy_scheme toy_codec toy_codec)
    ≡ ok shuffled
deserialize_shuffle_example =
    deserialize_shuffle-serialize_shuffle toy_scheme toy_codec toy_codec toy_codec-IsCodec
      toy_codec-IsCodec shuffled (omega arith) (omega arith)

abbrev revealed : RevealMessage toy_scheme
revealed = record { seat = 1; position = 3; token = 6; proof = 0; public = 6 }

deserialize_reveal_example :
    (serialize_reveal toy_scheme toy_codec toy_codec toy_codec revealed
      >>= deserialize_reveal toy_scheme toy_codec toy_codec toy_codec)
    ≡ ok revealed
deserialize_reveal_example =
    deserialize_reveal-serialize_reveal toy_scheme toy_codec toy_codec toy_codec toy_codec-IsCodec
      toy_codec-IsCodec toy_codec-IsCodec revealed (omega arith) (omega arith)

-- The peer 8 sits at seat 1 and sends a key for seat 0.
squatter : is_authorised toy dealt_table (key_announce 5 0 []) 8 ≡ false
unfolding deal_seat_of position_from is_mental
squatter = refl

handle-Rejects_example : Rejects dealt_table (handle toy 0 (key_announce 5 0 []) 8)
handle-Rejects_example = handle-Rejects toy 0 dealt_table (key_announce 5 0 []) 8 squatter

abbrev some_calls : List (Call toy)
some_calls = receive 0 (act 4 check) 8 ∷ deal_step ∷ []

-- The token of seat 1 for position 1.
abbrev token_bytes : List ℕ
token_bytes =
    1 ∷ 0 ∷ 0 ∷ 0 ∷ 1 ∷ 0 ∷ 0 ∷ 0 ∷ 1 ∷ 0 ∷ 0 ∷ 0 ∷ 6 ∷ 1 ∷ 0 ∷ 0 ∷ 0 ∷ 0 ∷ 1 ∷ 0 ∷ 0 ∷ 0 ∷ 6 ∷ []

-- The peer sends its own tokens, and takes a token of seat 1 in twice.
abbrev deal_script : List DealCall
deal_script =
    send_hole ∷ take_reveal 1 hole (token_bytes ∷ token_bytes ∷ []) ∷ send_community flop ∷ []

deal_calls-TokensOnce_example : TokensOnce toy (deal_calls toy deal_script toy_deal)
deal_calls-TokensOnce_example = deal_calls-TokensOnce toy deal_script toy_deal (tt, tt, tt)

abbrev four_cards : List Card
four_cards = queens.0 ∷ tens.0 ∷ queens.1 ∷ tens.1 ∷ []

-- The cards go to seat 1 first, and the second round follows the first.
four_cards-dealt : deal_hole four_cards 2 0 ≡ ok (tens ∷ queens ∷ [])
unfolding deal_hole deal_pass add64 rem64 index write
four_cards-dealt = refl

new_layout_example :
    (layout : DeckLayout) × (new_layout {E = Unit} 2 0 ≡ ok layout)
    × LaidOut four_cards (tens ∷ queens ∷ []) layout
new_layout_example = new_layout-LaidOut Unit four_cards 2 0 (tens ∷ queens ∷ []) four_cards-dealt

-- The same deal before the shuffles.
abbrev unshuffled : MentalDeal toy
unshuffled = record toy_deal { phase = shuffle; shuffles_done = 0 }

-- Seat 1 sends a shuffle that it is too early for, and the peer shuffles, twice.
abbrev shuffle_script : List DealCall
shuffle_script = take_shuffle 1 0 [] ∷ send_shuffle ∷ send_shuffle ∷ []

deal_calls-shufflers_example :
    (shufflers toy shuffle_script unshuffled
      ≡ range_from 0 (length (shufflers toy shuffle_script unshuffled)))
    × ((deal_calls toy shuffle_script unshuffled).shuffles_done
        ≡ 0 + length (shufflers toy shuffle_script unshuffled))
deal_calls-shufflers_example = deal_calls-shufflers toy shuffle_script unshuffled

abbrev other_announcement : KeyAnnouncement toy_scheme
other_announcement = record { seat = 0; public = 5; proof = 0; info = 1 }

not_same_seat : announcement.seat ≢ other_announcement.seat
not_same_seat e = cc

abbrev in_order : List (KeyAnnouncement toy_scheme)
in_order = announcement ∷ other_announcement ∷ []

abbrev reversed : List (KeyAnnouncement toy_scheme)
reversed = other_announcement ∷ announcement ∷ []

ingest_keys_example :
    (ingest_keys toy_scheme in_order toy_deal.peer ≡ ingest_keys toy_scheme reversed toy_deal.peer)
    × (finalize_aggregate_key toy_scheme (ingest_keys toy_scheme in_order toy_deal.peer)
        ≡ finalize_aggregate_key toy_scheme (ingest_keys toy_scheme reversed toy_deal.peer))
ingest_keys_example =
    ingest_keys-Reorders toy_scheme in_order reversed toy_deal.peer
      (exchange announcement other_announcement [] not_same_seat)
