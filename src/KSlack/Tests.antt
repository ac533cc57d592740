-- ===== src/KSlack/Tests.antt =====
-- Tests of the slack mechanisms, and examples of their theorems.
use elastic_ppq.Common.{ℕ, ◌≤◌, ◌≡◌, ◌⊎◌, refl, [], ◌∷◌, map, none, some, arith, false}
use elastic_ppq.Double.{nat_double}
use elastic_ppq.Message.{Tuple, empty}
use elastic_ppq.KSlack.{
  Slack, max_delay, advance, check_stream_progress, Buffer, insert, count_upto, insert_tuple,
  extract_tuple, extract_all,
}
use elastic_ppq.KSlack.Delay.{IsSlack, Progress, check_stream_progress_lem}
use elastic_ppq.KSlack.Order.{IsIdle, Received, insert_tuple-Received}

abbrev noted_slack : Slack
noted_slack = record { k = 3; tcurr = 20; ts_vect = 20 ∷ 12 ∷ 18 ∷ [] }

noted_slack-IsSlack : IsSlack noted_slack
noted_slack-IsSlack = record {
  k_le = omega arith;
  ts_le = (omega arith, (omega arith, (omega arith, tt)));
}

-- The tuple at 12 was 13 behind the one at 25.
check_stream_progress-noted :
    check_stream_progress noted_slack 25 ≡ (record { k = 13; tcurr = 25; ts_vect = [] }, some 12)
unfolding check_stream_progress advance max_delay
check_stream_progress-noted = refl

check_stream_progress_lem_example :
    IsSlack (check_stream_progress noted_slack 25).0
    × (((25 ≤ 20)
          × (check_stream_progress noted_slack 25
              ≡ (record noted_slack { ts_vect = 20 ∷ 12 ∷ 18 ∷ 25 ∷ [] }, none)))
        ⊎ ((p : ℕ) × ((check_stream_progress noted_slack 25).1 ≡ some p)
            × Progress noted_slack (check_stream_progress noted_slack 25).0 25 p))
check_stream_progress_lem_example = check_stream_progress_lem noted_slack 25 noted_slack-IsSlack

abbrev stamped : ℕ → Tuple ℕ
stamped ts = record empty { app_ts = ts }

abbrev waiting : Buffer ℕ
waiting = record {
  slack = noted_slack;
  tuples = stamped 12 ∷ stamped 18 ∷ stamped 20 ∷ [];
  to_emit = false;
  first_tuple = 0;
  last_tuple = 0;
}

waiting-IsIdle : IsIdle waiting
unfolding empty
waiting-IsIdle = record {
  sorted = ((omega arith, (omega arith, tt)), ((omega arith, tt), (tt, tt)));
  slack = noted_slack-IsSlack;
  idle = refl;
}

-- Only the tuple at 12 is not behind the bound 25 - 13.
extract_all-waiting :
    map (λ t. t.app_ts) (extract_all 5 (insert_tuple waiting (stamped 25)).0).1 ≡ 12 ∷ []
unfolding extract_all extract_tuple insert_tuple insert count_upto advance max_delay empty
extract_all-waiting = refl

insert_tuple-Received_example :
    Received waiting (stamped 25) (extract_all 5 (insert_tuple waiting (stamped 25)).0)
insert_tuple-Received_example =
    insert_tuple-Received 5 waiting (stamped 25) waiting-IsIdle (omega arith)
