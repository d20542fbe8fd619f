-- ===== src/Tests/Waits.antt =====
-- Pushes and waits at concrete servers.
use gridapps.Prelude.{
  true, none, some, refl, pos, inr, [], arith, ◌∷◌, find, codes, Map, ◌≡◌, put, List, length,
  bytes_eq, ℕ, Bytes, ◌+◌,
}
use gridapps.Blocking.Served.{push_generic_command-served, FirstPops, handed}
use gridapps.Blocking.Lost.{push_generic_command-loses, WaitsToMove, moved}
use gridapps.Blocking.Agree.{Agrees, unblock-Agrees, block_for_keys-Agrees}
use gridapps.Blocking.Push.{push_generic_command-stored, push_all, pushed_list}
use gridapps.Blocking.Cells.{keyed}
use gridapps.Blocking.{
  Hall, idle, tell, block_for_keys, released, push_generic_command, unblock_client_waiting_data,
}
use gridapps.Commands.{empty}
use gridapps.Commands.Sound.{empty-IsSound}
use gridapps.Db.{done}
use gridapps.Db.Evict.{evict}
use gridapps.Reply.{integer}
use gridapps.Tests.{master_at}

abbrev quiet : Hall
quiet = record {
  keyspace = empty;
  blocking_keys = [];
  clients = λ i. idle;
  bpop_blocked_clients = 0;
  unblocked_clients = [];
  sent = [];
}

quiet-Agrees : Agrees quiet
unfolding find
quiet-Agrees = record { sides = λ i j. refl }

stored_example :
    push_generic_command (master_at 5) 1 true (codes "k") (codes "a" ∷ codes "b" ∷ []) quiet
    ≡ done (
        tell 1 (integer (pos (length {A = Bytes} [] + length (codes "a" ∷ codes "b" ∷ [])))) (
          keyed quiet (
            pushed_list
              (codes "k")
              (length (codes "a" ∷ codes "b" ∷ []))
              (push_all true (codes "a" ∷ codes "b" ∷ []) [])
              (evict (master_at 5) (codes "k") empty))))
unfolding find evict
stored_example =
    push_generic_command-stored (master_at 5) 1 true (codes "k") (codes "a") (codes "b" ∷ []) []
      quiet empty-IsSound (inr (refl, refl)) refl

-- Client 2 waits for "k" with BLPOP.
abbrev popping : Hall
popping = block_for_keys 2 (codes "k" ∷ []) (pos 0) none quiet

popping-Agrees : Agrees popping
popping-Agrees = block_for_keys-Agrees 2 (codes "k" ∷ []) (pos 0) none quiet quiet-Agrees refl

block_example : Agrees (block_for_keys 3 (codes "k" ∷ codes "j" ∷ []) (pos 9) none quiet)
block_example =
    block_for_keys-Agrees 3 (codes "k" ∷ codes "j" ∷ []) (pos 9) none quiet quiet-Agrees refl

popping-FirstPops : FirstPops 2 [] (codes "k" ∷ []) (codes "k") popping
unfolding block_for_keys find put bytes_eq
popping-FirstPops = record {
  agrees = popping-Agrees;
  waits = refl;
  its_keys = refl;
  target = refl;
  counted = omega arith;
}

unblock_example :
    (w : Map (List ℕ)) × (unblock_client_waiting_data 2 popping ≡ done (released 2 popping w))
    × Agrees (released 2 popping w)
unfolding block_for_keys
unblock_example = unblock-Agrees 2 (codes "k" ∷ []) popping popping-Agrees refl

served_example :
    (w : Map (List ℕ)) × (push_generic_command
        (master_at 5)
        1
        true
        (codes "k")
        (codes "a" ∷ [])
        popping
      ≡ done (
          tell 1 (integer (pos 1)) (
            handed 2
              (codes "k")
              (codes "a")
              (keyed (released 2 popping w) (evict (master_at 5) (codes "k") empty)))))
    × Agrees (released 2 popping w)
    × (((released 2 popping w).clients 2).keys ≡ none)
unfolding block_for_keys find evict
served_example =
    push_generic_command-served (master_at 5) 1 2 true [] (codes "k" ∷ []) (codes "k") (codes "a")
      popping empty-IsSound refl popping-FirstPops

-- Client 2 waits with BRPOPLPUSH k m.
abbrev moving : Hall
moving = block_for_keys 2 (codes "k" ∷ []) (pos 0) (some (codes "m")) quiet

moving-WaitsToMove : WaitsToMove 2 [] (codes "k") (codes "m") moving
unfolding block_for_keys find put bytes_eq gridapps.Prelude.del
moving-WaitsToMove = record {
  sound = empty-IsSound;
  missing = refl;
  lasting = refl;
  no_target = refl;
  target_lasting = refl;
  waits = refl;
  keys = refl;
  target = refl;
  alone = refl;
  counted = omega arith;
}

loses_example :
    push_generic_command (master_at 5) 1 true (codes "k") (codes "a" ∷ codes "b" ∷ []) moving
    ≡ done (
        tell 1
          (integer (pos 1))
          (moved (master_at 5) 2 [] (codes "k") (codes "m") moving moving-WaitsToMove (codes "a")))
loses_example =
    push_generic_command-loses (master_at 5) 2 [] (codes "k") (codes "m") moving moving-WaitsToMove
      1 true (codes "a") (codes "b" ∷ [])
