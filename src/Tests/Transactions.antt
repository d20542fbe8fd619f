-- ===== src/Tests/Transactions.antt =====
-- Transactions at concrete servers.
use gridapps.Strings.Basic.{set_generic_command, set_rest}
use gridapps.Db.{◌>>=◌, lookup_key_write, set_key, add_dirty}
use gridapps.Object.{try_object_encoding}
use gridapps.Util.Number.{string2l}
use gridapps.Prelude.{put, del, true, false, refl, [], arith, ◌∷◌}
use gridapps.Strings.Basic.{set_command}
use gridapps.Commands.Sound.{empty-IsSound}
use gridapps.Multi.Exec.{exec-watched_write}
use gridapps.Object.{raw}
use gridapps.Reply.{ok, nullmultibulk}
use gridapps.Db.{done, Keyspace}
use gridapps.Tests.{master_at}
use gridapps.Multi.Watch.{Agrees}
use gridapps.Commands.{empty, set, get, run}
use gridapps.Multi.{Server, process, call, exec, plain, initial_client, exec_command, has_key}
use gridapps.Prelude.{
  true, false, refl, [], arith, ◌∷◌, find, codes, ◌≡◌, if◌then◌else◌, ◌==◌, bytes_eq,
}
use gridapps.Multi.Total.{IsConsistent, EndsWell, process-EndsWell}

-- Client 0 watches `k` and is in a transaction that reads it; client 1 is idle.
abbrev watching : Server
watching = record {
  keyspace = empty;
  watched = (codes "k", 0 ∷ []) ∷ [];
  clients = λ i.
      if i == 0
      then record {
        in_multi = true;
        dirty_cas = false;
        watched_keys = codes "k" ∷ [];
        commands = plain (get (codes "k")) ∷ [];
      }
      else initial_client;
}

watching-Agrees : Agrees watching
unfolding find
watching-Agrees i j = ground arith

watching-IsConsistent : IsConsistent watching
watching-IsConsistent = record {
  agrees = watching-Agrees;
  sound = empty-IsSound;
  fits = λ i. ground arith;
}

process_example : EndsWell (process (master_at 5) 0 exec watching)
process_example = process-EndsWell (master_at 5) 0 exec watching tt watching-IsConsistent

watched_k : has_key (codes "k" ∷ []) (codes "k") ≡ true
unfolding has_key bytes_eq
watched_k = refl

abbrev after_set_k : Keyspace
after_set_k = record empty {
  dict = (codes "k", raw (codes "v")) ∷ [];
  dirty = 1;
  touched = codes "k" ∷ [];
}

set_runs : run (master_at 5) (set (codes "k") (codes "v")) empty ≡ done (ok, after_set_k)
unfolding run set_command set_generic_command set_rest ◌>>=◌ lookup_key_write find set_key put
    bytes_eq add_dirty try_object_encoding del string2l
set_runs = refl

-- Client 1 sets `k`, and client 0 loses.
watched_write_example :
    (t u : Server) × (call (master_at 5) 1 (plain (set (codes "k") (codes "v"))) watching
      ≡ done (ok, t))
    × (exec_command (master_at 6) 0 t ≡ done (nullmultibulk, u))
    × (u.keyspace.dict ≡ (codes "k", raw (codes "v")) ∷ [])
    × (u.keyspace.expires ≡ [])
watched_write_example =
    exec-watched_write (master_at 5) (master_at 6) 0 1 (set (codes "k") (codes "v")) watching
      (codes "k") ok after_set_k watching-Agrees refl watched_k set_runs watched_k
