-- ===== src/Wlq/Collector.antt =====
-- `class WLQ_Collector` of include/wlq.hpp, without UNORDERING_COLLECTOR. A null pointer is `none`.
pub mod Slots
pub mod InOrder
pub mod Ordered
mod Tests
use elastic_ppq.Common.{
  ℕ, zero, suc, ◌+◌, ◌-◌, ◌%◌, ◌^◌, List, [], ◌∷◌, ◌++◌, Option, none, some, length, set, leb, ◌==◌,
  if◌then◌else◌,
}
use elastic_ppq.ResultsSet.{Derived}
use elastic_ppq.Query.TData.{resize}

pub record Collector (S : Type 0) : Type 0 where
  pub next_win_id : ℕ
  pub win_set : List (Option S)

unfoldable pub create : {S : Type 0} → Collector S
create = record { next_win_id = 0; win_set = [] }

module _ {S : Type 0} where
  -- the loop that sends results sets up to the first null pointer: what it sends, and what is left
  unfoldable pub send_run : List (Option S) → List S × List (Option S)
  send_run [] = ([], [])
  send_run (none ∷ l) = ([], none ∷ l)
  send_run (some s ∷ l) = let rest = send_run l in (s ∷ rest.0, rest.1)

  -- the same from the place behind the first one; an empty deque is left alone
  unfoldable pub send_behind : List (Option S) → List S × List (Option S)
  send_behind [] = ([], [])
  send_behind (o ∷ l) = send_run l

  -- the results set is put in its place, for which the deque may have to grow
  unfoldable pub buffer : ℕ → S → List (Option S) → List (Option S)
  buffer i w l = set (if leb (length l) i then resize (suc i) none l else l) i (some w)

module _ {S : Type 0} ⦃b : Derived S⦄ where
  -- the collector afterwards, and the results sets that it sends
  unfoldable pub svc : Collector S → S → Collector S × List S
  svc c w =
      let id : ℕ = (b.base w).id in
      if id == c.next_win_id
      then (let sent = send_behind c.win_set in
          (
            record { next_win_id = c.next_win_id + 1 + length sent.0; win_set = sent.1 },
            w ∷ sent.0,
          ))
      else (record c { win_set = buffer ((id + 2 ^ 64 - c.next_win_id) % 2 ^ 64) w c.win_set }, [])

  -- results sets one after another, with all that is sent
  unfoldable pub run : Collector S → List S → Collector S × List S
  run c [] = (c, [])
  run c (w ∷ ws) = let one = svc c w in let rest = run one.0 ws in (rest.0, one.1 ++ rest.1)
