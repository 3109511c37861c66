-- ===== src/Tests/Worker.antt =====
-- The theorems on the rules, the queues and the worker's loop at the test configuration.
use natasha.Base.{◌+◌, ◌≤◌, ◌≡◌, refl, arith, true, ◌==◌, if◌then◌else◌}
use natasha.Base.{[], ◌∷◌, count, is_neg, none, some, ◌<◌, ℕ}
use natasha.TxQueue.{tx_send, tx_flush}
use natasha.TxQueue.Custody.{disposed, QueuesValid}
use natasha.TxQueue.Ownership.{tx_send_owners, tx_flush_owners}
use natasha.Parse.{build_content}
use natasha.Rules.{process_rules}
use natasha.Rules.Outcome.{result}
use natasha.Rules.Meaning.{exec, process_rules-build_content}
use natasha.Rules.Ownership.{process_rules_owners}
use natasha.Rules.Ending.{ends, IsBreaking, build_content-IsBreaking}
use natasha.Dispatch.{dispatch_packet, dispatch_all, mark_used, main_loop_round}
use natasha.Dispatch.Ownership.{dispatch_packet_never_twice, dispatch_all_owners}
use natasha.Dispatch.Rounds.{main_loop_round_owners, received}
use natasha.Tests.{
  test_platform, test_core, test_boolean, test_rules, test_core-QueuesValid, test_core-InRange,
  test_core-Serves,
}
use natasha.Dispatch.Loop.{main_loop, delivered, main_loop_owners}

test_rules_end : ends test_rules ≡ true
unfolding ends
test_rules_end = refl

main_loop_round_owners_example :
    disposed 7 (main_loop_round test_platform test_core)
    ≡ disposed 7 test_core
      + count 7 (received test_platform 0 2 (mark_used test_platform test_core))
main_loop_round_owners_example =
    main_loop_round_owners test_platform test_boolean test_core 7 (omega arith) test_core-Serves

-- The round of the example above receives packet 7.
received_runs : count 7 (received test_platform 0 2 (mark_used test_platform test_core)) ≡ 1
unfolding received mark_used
received_runs = refl

dispatch_all_owners_example :
    disposed 7 (dispatch_all test_platform 0 (7 ∷ 8 ∷ []) test_core)
    ≡ disposed 7 test_core + count 7 (7 ∷ 8 ∷ [])
dispatch_all_owners_example =
    dispatch_all_owners test_platform test_boolean 0 (7 ∷ 8 ∷ []) test_core 7 (omega arith)
      test_core-Serves

dispatch_packet_never_twice_example :
    QueuesValid (dispatch_packet test_platform 7 0 test_core).1
    × ((q : ℕ)
        → (disposed q test_core ≤ disposed q (dispatch_packet test_platform 7 0 test_core).1)
          × (disposed q (dispatch_packet test_platform 7 0 test_core).1
              ≤ disposed q test_core + (if 7 == q then 1 else 0)))
dispatch_packet_never_twice_example =
    dispatch_packet_never_twice test_platform test_boolean 7 0 test_core (omega arith)
      test_core-InRange test_core-QueuesValid

main_loop_owners_example :
    let end = main_loop test_platform (none ∷ some test_core.app_config ∷ []) test_core in
    ((q : ℕ)
      → disposed q end
        ≡ disposed q test_core
          + count q (delivered test_platform (none ∷ some test_core.app_config ∷ []) test_core))
    × ((port : ℕ) → port < 2 → (end.tx_queues port).len ≡ 0)
main_loop_owners_example =
    main_loop_owners test_platform test_boolean (omega arith) none (some test_core.app_config ∷ [])
      test_core
      (
        record {
          source = test_core-Serves.source;
          loaded = test_core-Serves.loaded;
          ending = test_core-Serves.ending;
          range = test_core-InRange;
        },
        tt,
      )
      test_core-Serves

tx_send_owners_example :
    (disposed 7 (tx_send test_platform 7 1 test_core).1
      ≡ disposed 7 test_core + (if 7 == 7 then 1 else 0))
    × QueuesValid (tx_send test_platform 7 1 test_core).1
tx_send_owners_example =
    tx_send_owners test_platform 7 1 test_core 7 (omega arith) test_core-QueuesValid

tx_flush_owners_example :
    (disposed 7 (tx_flush test_platform 1 (tx_send test_platform 7 1 test_core).1).1
      ≡ disposed 7 (tx_send test_platform 7 1 test_core).1)
    × (((tx_flush test_platform 1 (tx_send test_platform 7 1 test_core).1).1.tx_queues 1).len
        ≡ (if 1 == 1 then 0 else ((tx_send test_platform 7 1 test_core).1.tx_queues 1).len))
tx_flush_owners_example =
    tx_flush_owners test_platform 1 (tx_send test_platform 7 1 test_core).1 7 1 (omega arith)

process_rules-build_content_example :
    process_rules test_platform (build_content test_rules) 7 0 test_core
    ≡ result (exec test_platform 7 0 test_rules test_core)
process_rules-build_content_example =
    process_rules-build_content test_platform 7 0 test_rules test_core

build_content-IsBreaking_example : IsBreaking test_platform 7 0 (build_content test_rules)
build_content-IsBreaking_example =
    build_content-IsBreaking test_platform 7 0 test_rules test_rules_end

process_rules_owners_example :
    (disposed 7 (process_rules test_platform test_core.app_config.rules 7 0 test_core).1
      ≡ disposed 7 test_core
        + (if 7 == 7
            then (if is_neg (process_rules test_platform test_core.app_config.rules 7 0 test_core).0
                then 1
                else 0)
            else 0))
    × QueuesValid (process_rules test_platform test_core.app_config.rules 7 0 test_core).1
process_rules_owners_example =
    process_rules_owners test_platform test_boolean 7 0 test_core.app_config.rules test_core 7
      test_core-InRange test_core-QueuesValid
