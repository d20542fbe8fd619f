-- ===== src/Multi/Total.antt =====
-- multi.c: what holds of a server between two requests, for each kind of request.
use gridapps.Commands.{Command}
use gridapps.Commands.Sound.{run-Keeps, Fits}
use gridapps.Db.Keeps.{Succeeds}
use gridapps.Multi.Watch.{Agrees, unwatch_all_keys_total, count_client-append, count_key-append}
use gridapps.Reply.{Reply, Replies}
use gridapps.Db.{Outcome, done, Keyspace, aborted, Env}
use gridapps.Multi.{
  Server, after_command, call, map_outcome, call_plain, unwatch_all_keys, unwatch_command, Queued,
  plain, signal_flush, exec_loop, unwatch, and_then, reset_multi, exec_command, discard_command,
  watch_for_key, exec_finish, has_key, watch_all, process, Request, clients_of, watch_command,
  multi_command, queue_multi_command, queueable, watch, begin_multi, exec, discard, touch_all,
  touch_watched_keys_on_flush, Client, touch_watched_key, update_client,
}
use gridapps.Prelude.{
  [], ℕ, arith, ◌∷◌, List, inl, inr, Bool-cases, Bytes, bytes_eq_iff, ◌++◌, find-put, ◌≡◌, refl,
  ◌∙◌, ◌==◌,
}
use mathlib.Core.Path.{subst, sym}
use gridapps.Db.Evict.{IsSound}
use gridapps.Multi.Exec.{
  touch_all-Agrees, signal_flush-Agrees, signal_flush-same, touch_all-keyspace,
}

-- The commands on the keyspace fit.
abbrev pub QueuedFits : Queued → Type 0
QueuedFits (plain cmd) = Fits cmd
QueuedFits unwatch = Unit

abbrev pub AllFit : List Queued → Type 0
AllFit [] = Unit
AllFit (q ∷ qs) = QueuedFits q × AllFit qs

abbrev pub RequestFits : Request → Type 0
RequestFits (queueable q) = QueuedFits q
RequestFits r = Unit

-- What holds between two requests.
pub record IsConsistent (s : Server) : Type 0 where
  pub agrees : Agrees s
  pub sound : IsSound s.keyspace
  pub fits : (i : ℕ) → AllFit ((s.clients i).commands)

-- The outcome is a result whose server is consistent.
abbrev pub EndsWell : {A : Type 0} → Outcome (A × Server) → Type 0
EndsWell (done (a, s)) = IsConsistent s
EndsWell aborted = ⊥

EndsWell-map :
    {A B : Type 0} (f : A × Server → B × Server) (o : Outcome (A × Server))
    → ((p : A × Server) → IsConsistent (p.1) → IsConsistent ((f p).1))
    → EndsWell o
    → EndsWell (map_outcome f o)
EndsWell-map f (done p) keeps h = keeps p h
EndsWell-map f aborted keeps h = h

EndsWell-then :
    {A B : Type 0} (o : Outcome (A × Server)) (f : A × Server → Outcome (B × Server))
    → EndsWell o
    → ((p : A × Server) → IsConsistent (p.1) → EndsWell (f p))
    → EndsWell (and_then o f)
EndsWell-then (done p) f h keeps = keeps p h
EndsWell-then aborted f h keeps = h

touch_all-commands :
    (s : Server) (keys : List Bytes) (i : ℕ)
    → ((touch_all s keys).clients i).commands ≡ (s.clients i).commands
unfolding touch_all touch_watched_key
touch_all-commands s [] i = refl
touch_all-commands s (key ∷ keys) i =
    touch_all-commands (touch_watched_key s key) keys i ∙ ground arith

signal_flush-commands :
    (cmd : Command) (s : Server) (i : ℕ)
    → ((signal_flush cmd s).clients i).commands ≡ (s.clients i).commands
unfolding signal_flush touch_watched_keys_on_flush
signal_flush-commands cmd s i = ground arith

AllFit-append : (qs : List Queued) (q : Queued) → AllFit qs → QueuedFits q → AllFit (qs ++ q ∷ [])
AllFit-append [] q h f = (f, tt)
AllFit-append (p ∷ qs) q (e, h) f = (e, AllFit-append qs q h f)

after_run :
    (s : Server) (o : Outcome (Reply × Keyspace))
    → Agrees s
    → ((i : ℕ) → AllFit ((s.clients i).commands))
    → Succeeds o
    → EndsWell (map_outcome (after_command s) o)
unfolding after_command
after_run s aborted agrees fits h = h
after_run s (done (r, d)) agrees fits h = record {
  agrees = touch_all-Agrees _ d.touched agrees;
  sound = subst IsSound (sym (touch_all-keyspace _ d.touched)) (record { owned = h.owned });
  fits = λ i. subst AllFit (sym (touch_all-commands _ d.touched i)) (fits i);
}

unwatch-EndsWell :
    {A : Type 0} (c : ℕ) (s : Server) (f : Server → A × Server)
    → IsConsistent s
    → ((t : Server) → IsConsistent t → IsConsistent ((f t).1))
    → EndsWell (map_outcome f (unwatch_all_keys c s))
unwatch-EndsWell c s f h keeps =
    let u = unwatch_all_keys_total c s h.agrees in
    rw u.1 (
      keeps (u.0) (record {
        agrees = u.2.agrees;
        sound = subst IsSound (sym u.2.same_keyspace) h.sound;
        fits = λ i. subst AllFit (sym (u.2.same_queue i)) (h.fits i);
      }))

update-AllFit :
    (s : Server) (c : ℕ) (new : Client)
    → ((i : ℕ) → AllFit ((s.clients i).commands))
    → AllFit new.commands
    → (i : ℕ) → AllFit (((update_client s c new).clients i).commands)
update-AllFit s c new all f i = elim (Bool-cases (i == c)) [ inl e ↦ rw e f | inr e ↦ rw e (all i) ]

call-EndsWell :
    (env : Env) (c : ℕ) (q : Queued) (s : Server)
    → QueuedFits q
    → IsConsistent s
    → EndsWell (call env c q s)
unfolding call call_plain unwatch_command
call-EndsWell env c (plain cmd) s f h =
    let fits : (i : ℕ) → AllFit (((signal_flush cmd s).clients i).commands) =
      λ i. subst AllFit (sym (signal_flush-commands cmd s i)) (h.fits i) in
    after_run (signal_flush cmd s) _ (signal_flush-Agrees cmd s h.agrees) fits (
      (run-Keeps env cmd f).at _ (
        subst (λ k. IsSound (record k { touched = [] })) (sym (signal_flush-same cmd s c).0)
          (record { owned = h.sound.owned })))
call-EndsWell env c unwatch s f h = unwatch-EndsWell c s _ h λ t g. record {
  agrees = λ i j. grind (arith, g.agrees i j);
  sound = g.sound;
  fits = λ i. update-AllFit t c _ g.fits (g.fits c) i;
}

exec_loop-EndsWell :
    (env : Env) (c : ℕ) (qs : List Queued) (s : Server)
    → AllFit qs
    → IsConsistent s
    → EndsWell (exec_loop env c qs s)
unfolding exec_loop
exec_loop-EndsWell env c [] s f h = h
exec_loop-EndsWell env c (q ∷ qs) s (f, fs) h =
    EndsWell-then (call env c q s) _ (call-EndsWell env c q s f h) λ p g.
      EndsWell-map _ (exec_loop env c qs (p.1)) (λ x k. k) (exec_loop-EndsWell env c qs (p.1) fs g)

reset_multi-IsConsistent : (c : ℕ) (s : Server) → IsConsistent s → IsConsistent (reset_multi c s)
unfolding reset_multi
reset_multi-IsConsistent c s h = record {
  agrees = λ i j. grind (arith, h.agrees i j);
  sound = h.sound;
  fits = λ i. update-AllFit s c _ h.fits tt i;
}

finish_EndsWell :
    (c : ℕ) (p : Replies × Server) → IsConsistent (p.1) → IsConsistent ((exec_finish c p).1)
unfolding exec_finish
finish_EndsWell c (rs, t) g =
    reset_multi-IsConsistent c _
      (record { agrees = g.agrees; sound = record { owned = g.sound.owned }; fits = g.fits })

exec-EndsWell : (env : Env) (c : ℕ) (s : Server) → IsConsistent s → EndsWell (exec_command env c s)
unfolding exec_command
exec-EndsWell env c s h =
    let u = unwatch_all_keys_total c s h.agrees in
    let left : IsConsistent (u.0) = record {
      agrees = u.2.agrees;
      sound = subst IsSound (sym u.2.same_keyspace) h.sound;
      fits = λ i. subst AllFit (sym (u.2.same_queue i)) (h.fits i);
    } in
    elim (Bool-cases ((s.clients c).in_multi)) [
      | inr e ↦ rw e h
      | inl e ↦ elim (Bool-cases ((s.clients c).dirty_cas)) [
        | inl d ↦
            rw (e, d)
              (unwatch-EndsWell c (reset_multi c s) _ (reset_multi-IsConsistent c s h) (λ t g. g))
        | inr d ↦
            rw (e, d, u.1)
              (EndsWell-map _ _ (finish_EndsWell c)
                (exec_loop-EndsWell env c _ (u.0) (left.fits c) left))
      ]
    ]

discard-EndsWell : (c : ℕ) (s : Server) → IsConsistent s → EndsWell (discard_command c s)
unfolding discard_command
discard-EndsWell c s h = elim (Bool-cases ((s.clients c).in_multi)) [
  | inl e ↦
      rw e (unwatch-EndsWell c (reset_multi c s) _ (reset_multi-IsConsistent c s h) (λ t g. g))
  | inr e ↦ rw e h
]

watch_for_key-Agrees :
    (c : ℕ) (s : Server) (key : Bytes) → Agrees s → Agrees (watch_for_key c s key)
unfolding watch_for_key
watch_for_key-Agrees c s key h i j = elim (Bool-cases (has_key ((s.clients c).watched_keys) key)) [
  | inl e ↦ rw e (h i j)
  | inr e ↦ rw e (
      grind (
        arith,
        h i j,
        h i key,
        bytes_eq_iff key j,
        find-put s.watched key j (clients_of s.watched key ++ c ∷ []),
        count_client-append (clients_of s.watched key) c i,
        count_key-append ((s.clients c).watched_keys) key j,
      ))
]

watch_for_key-commands :
    (c : ℕ) (s : Server) (key : Bytes) (i : ℕ)
    → ((watch_for_key c s key).clients i).commands ≡ (s.clients i).commands
unfolding watch_for_key
watch_for_key-commands c s key i = ground arith

watch_for_key-keyspace :
    (c : ℕ) (s : Server) (key : Bytes) → (watch_for_key c s key).keyspace ≡ s.keyspace
unfolding watch_for_key
watch_for_key-keyspace c s key = ground arith

watch_all-IsConsistent :
    (c : ℕ) (s : Server) (keys : List Bytes) → IsConsistent s → IsConsistent (watch_all c s keys)
unfolding watch_all
watch_all-IsConsistent c s [] h = h
watch_all-IsConsistent c s (key ∷ keys) h =
    watch_all-IsConsistent c (watch_for_key c s key) keys (record {
      agrees = watch_for_key-Agrees c s key h.agrees;
      sound = subst IsSound (sym (watch_for_key-keyspace c s key)) h.sound;
      fits = λ i. subst AllFit (sym (watch_for_key-commands c s key i)) (h.fits i);
    })

watch-IsConsistent :
    (c : ℕ) (keys : List Bytes) (s : Server)
    → IsConsistent s
    → IsConsistent ((watch_command c keys s).1)
unfolding watch_command
watch-IsConsistent c keys s h = elim (Bool-cases ((s.clients c).in_multi)) [
  | inl e ↦ rw e h
  | inr e ↦ rw e (watch_all-IsConsistent c s keys h)
]

multi-IsConsistent : (c : ℕ) (s : Server) → IsConsistent s → IsConsistent ((multi_command c s).1)
unfolding multi_command
multi-IsConsistent c s h = elim (Bool-cases ((s.clients c).in_multi)) [
  | inl e ↦ rw e h
  | inr e ↦ rw e (record {
    agrees = λ i j. grind (arith, h.agrees i j);
    sound = h.sound;
    fits = λ i. update-AllFit s c _ h.fits (h.fits c) i;
  })
]

queue-IsConsistent :
    (c : ℕ) (q : Queued) (s : Server)
    → QueuedFits q
    → IsConsistent s
    → IsConsistent (queue_multi_command c q s)
unfolding queue_multi_command
queue-IsConsistent c q s f h = record {
  agrees = λ i j. grind (arith, h.agrees i j);
  sound = h.sound;
  fits = λ i. update-AllFit s c _ h.fits (AllFit-append _ q (h.fits c) f) i;
}

-- Take a server whose keyspace is sound, whose two sides of WATCH agree, and where every SETRANGE that
-- is queued for an EXEC ends below 2^63 bytes. MULTI, EXEC, DISCARD, WATCH, UNWATCH and each of the 40
-- commands of the type Command, where a SETRANGE ends below 2^63 bytes too, is served to its end for
-- any client, and leaves such a server: no assertion fails and no list lacks the client that
-- unwatchAllKeys removes. The reply `wild` of GETRANGE, which reads outside of its string, counts as an
-- end.
pub process-EndsWell :
    (env : Env) (c : ℕ) (q : Request) (s : Server)
    → RequestFits q
    → IsConsistent s
    → EndsWell (process env c q s)
unfolding process
process-EndsWell env c (queueable q) s f h = elim (Bool-cases ((s.clients c).in_multi)) [
  | inl e ↦ rw e (queue-IsConsistent c q s f h)
  | inr e ↦ rw e (call-EndsWell env c q s f h)
]
process-EndsWell env c begin_multi s f h = multi-IsConsistent c s h
process-EndsWell env c exec s f h = exec-EndsWell env c s h
process-EndsWell env c discard s f h = discard-EndsWell c s h
process-EndsWell env c (watch keys) s f h = watch-IsConsistent c keys s h
