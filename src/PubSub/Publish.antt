-- ===== src/PubSub/Publish.antt =====
-- pubsub.c: who is sent what by PUBLISH.
use gridapps.Reply.{integer}
use gridapps.PubSub.{
  Hub, send_messages, Note, send, message, pmessage, wild, send_matching, publish_command,
  publish_message, same_pattern, reply_receivers,
}
use gridapps.Util.Glob.{Match, stringmatchlen, hit, miss, wild}
use gridapps.Prelude.{
  false, [], ◌∷◌, Bytes, ℕ, List, Bool, ◌≡◌, ◌++◌, ◌≢◌, ◌==◌, if◌then◌else◌, ◌+◌, length, ◌&&◌,
  bytes_eq, refl, inl, inr, arith, ◌⊎◌, append-nil, append_assoc, ◌∙◌, bytes_eq_refl, pos, sym,
  Bool-cases, bytes_eq_iff, length-append, ap,
}
use gridapps.Multi.{clients_of, map_outcome}
use gridapps.Multi.Watch.{count_client, count_key}
use gridapps.PubSub.Agree.{Agrees, count_pattern}
use gridapps.Db.{done}

abbrev messages : Bytes → Bytes → List ℕ → List (ℕ × Note)
messages channel text [] = []
messages channel text (c ∷ cs) = (c, message channel text) ∷ messages channel text cs

abbrev pmessage_if : Match → ℕ × Note → List (ℕ × Note) → List (ℕ × Note)
pmessage_if hit note notes = note ∷ notes
pmessage_if miss note notes = notes
pmessage_if wild note notes = notes

abbrev pmessages : Bytes → Bytes → List (ℕ × Bytes) → List (ℕ × Note)
pmessages channel text [] = []
pmessages channel text ((c, p) ∷ ps) =
    pmessage_if (stringmatchlen p channel false) (c, pmessage p channel text)
      (pmessages channel text ps)

-- How often a client is sent this message, and how often with this pattern.
abbrev pub is_message : ℕ → Bytes → Bytes → ℕ × Note → Bool
is_message i channel text (j, message ch tx) = j == i && bytes_eq ch channel && bytes_eq tx text
is_message i channel text (j, note) = false

abbrev pub is_pmessage : ℕ → Bytes → Bytes → Bytes → ℕ × Note → Bool
is_pmessage i p channel text (j, pmessage q ch tx) =
    j == i && bytes_eq q p && bytes_eq ch channel && bytes_eq tx text
is_pmessage i p channel text (j, note) = false

abbrev pub count_notes : (ℕ × Note → Bool) → List (ℕ × Note) → ℕ
count_notes t [] = 0
count_notes t (x ∷ xs) = (if t x then 1 else 0) + count_notes t xs

-- The channel can be compared with each pattern without a read outside of the pattern.
abbrev pub Readable : Bytes → List (ℕ × Bytes) → Type 0
Readable channel [] = Unit
Readable channel ((c, p) ∷ ps) = (stringmatchlen p channel false ≢ wild) × Readable channel ps

abbrev logged : Hub → List (ℕ × Note) → Hub
logged h notes = record h { sent = h.sent ++ notes }

Match-cases : (m : Match) → ((m ≡ hit) ⊎ (m ≡ miss)) ⊎ (m ≡ wild)
Match-cases hit = inl (inl refl)
Match-cases miss = inl (inr refl)
Match-cases wild = inr refl

logged-nil : (h : Hub) → h ≡ logged h []
logged-nil h = λ i. record h { sent = sym (append-nil h.sent) i }

logged-logged : (h : Hub) (xs ys : List (ℕ × Note)) → logged (logged h xs) ys ≡ logged h (xs ++ ys)
logged-logged h xs ys = λ i. record h { sent = append_assoc h.sent xs ys i }

send_messages-logged :
    (channel text : Bytes) (cs : List ℕ) (n : ℕ) (h : Hub)
    → send_messages channel text cs (n, h)
      ≡ (n + length (messages channel text cs), logged h (messages channel text cs))
unfolding send_messages send
send_messages-logged channel text [] n h =
    let same : n ≡ n + 0 = omega arith in λ i. (same i, logged-nil h i)
send_messages-logged channel text (c ∷ cs) n h =
    let rest = messages channel text cs in
    let note : ℕ × Note = (c, message channel text) in
    let sum : n + 1 + length rest ≡ n + length (note ∷ rest) = omega arith in
    send_messages-logged channel text cs (n + 1) (send c (message channel text) h) ∙ λ i.
    (sum i, logged-logged h (note ∷ []) rest i)

send_matching-logged :
    (channel text : Bytes) (ps : List (ℕ × Bytes)) (n : ℕ) (h : Hub)
    → Readable channel ps
    → send_matching channel text ps (n, h)
      ≡ done (n + length (pmessages channel text ps), logged h (pmessages channel text ps))
unfolding send_matching send
send_matching-logged channel text [] n h r =
    let same : n ≡ n + 0 = omega arith in λ i. done (same i, logged-nil h i)
send_matching-logged channel text ((c, p) ∷ ps) n h (tame, r) =
    elim (Match-cases (stringmatchlen p channel false)) [
      | inl (inl e) ↦
          let rest = pmessages channel text ps in
          let note : ℕ × Note = (c, pmessage p channel text) in
          let sum : n + 1 + length rest ≡ n + length (note ∷ rest) = omega arith in
          rw e (
            send_matching-logged channel text ps (n + 1) (send c (pmessage p channel text) h) r
            ∙ λ i. done (sum i, logged-logged h (note ∷ []) rest i))
      | inl (inr e) ↦ rw e (send_matching-logged channel text ps n h r)
      | inr e ↦ absurd (tame e)
    ]

count_notes-append :
    (t : ℕ × Note → Bool) (xs ys : List (ℕ × Note))
    → count_notes t (xs ++ ys) ≡ count_notes t xs + count_notes t ys
count_notes-append t [] ys = omega arith
count_notes-append t (x ∷ xs) ys = omega (arith, count_notes-append t xs ys)

count_notes-messages :
    (i : ℕ) (channel text : Bytes) (cs : List ℕ)
    → count_notes (is_message i channel text) (messages channel text cs) ≡ count_client cs i
count_notes-messages i channel text [] = refl
count_notes-messages i channel text (c ∷ cs) =
    ground
      (arith, count_notes-messages i channel text cs, bytes_eq_refl channel, bytes_eq_refl text)

-- A pattern counts if it fits.
abbrev pub if_hit : Match → ℕ → ℕ
if_hit hit n = n
if_hit miss n = 0
if_hit wild n = 0

if_hit-zero : (m : Match) → if_hit m 0 ≡ 0
if_hit-zero hit = refl
if_hit-zero miss = refl
if_hit-zero wild = refl

if_hit-add : (m : Match) (a b : ℕ) → if_hit m (a + b) ≡ if_hit m a + if_hit m b
if_hit-add hit a b = refl
if_hit-add miss a b = refl
if_hit-add wild a b = refl

count_notes-pmessage_if :
    (t : ℕ × Note → Bool) (m : Match) (x : ℕ × Note) (xs : List (ℕ × Note))
    → count_notes t (pmessage_if m x xs) ≡ if_hit m (if t x then 1 else 0) + count_notes t xs
count_notes-pmessage_if t hit x xs = refl
count_notes-pmessage_if t miss x xs = omega arith
count_notes-pmessage_if t wild x xs = omega arith

count_notes-pmessages_none :
    (i : ℕ) (channel text : Bytes) (ps : List (ℕ × Bytes))
    → count_notes (is_message i channel text) (pmessages channel text ps) ≡ 0
count_notes-pmessages_none i channel text [] = refl
count_notes-pmessages_none i channel text ((c, p) ∷ ps) =
    let m = stringmatchlen p channel false in
    omega (
      arith,
      count_notes-pmessage_if (is_message i channel text) m (c, pmessage p channel text)
          (pmessages channel text ps),
      if_hit-zero m,
      count_notes-pmessages_none i channel text ps,
    )

count_notes-messages_none :
    (i : ℕ) (p channel text : Bytes) (cs : List ℕ)
    → count_notes (is_pmessage i p channel text) (messages channel text cs) ≡ 0
count_notes-messages_none i p channel text [] = refl
count_notes-messages_none i p channel text (c ∷ cs) =
    omega (arith, count_notes-messages_none i p channel text cs)

count_notes-pmessages :
    (i : ℕ) (q channel text : Bytes) (ps : List (ℕ × Bytes))
    → count_notes (is_pmessage i q channel text) (pmessages channel text ps)
      ≡ if_hit (stringmatchlen q channel false) (count_pattern ps i q)
count_notes-pmessages i q channel text [] = sym (if_hit-zero (stringmatchlen q channel false))
count_notes-pmessages i q channel text ((c, p) ∷ ps) =
    let m = stringmatchlen p channel false in
    let rest = count_notes-pmessages i q channel text ps in
    let here =
      count_notes-pmessage_if (is_pmessage i q channel text) m (c, pmessage p channel text)
        (pmessages channel text ps) in
    elim (Bool-cases (same_pattern (c, p) i q)) [
      | inl same ↦
          let e : p ≡ q = ground (arith, bytes_eq_iff p q) in
          ground (
            arith,
            here,
            rest,
            ap (λ r. stringmatchlen r channel false) e,
            bytes_eq_refl channel,
            bytes_eq_refl text,
            if_hit-add m 1 (count_pattern ps i q),
          )
      | inr other ↦ ground (arith, here, rest, if_hit-zero m)
    ]

-- Where the tables agree and no pattern makes the comparison read outside of it, PUBLISH ends: it
-- changes nothing but what is sent, and answers the number of notes that it sends. Each client is
-- sent the message as often as it has the channel, and for each pattern that fits the channel as
-- often as it has the pattern, with the pattern; for a pattern that does not fit it is sent none.
pub publish_command-counts :
    (channel text : Bytes) (h : Hub)
    → Agrees h
    → Readable channel h.patterns
    → (notes : List (ℕ × Note)) × (publish_command channel text h
        ≡ done (integer (pos (length notes)), record h { sent = h.sent ++ notes }))
      × ((i : ℕ)
          → count_notes (is_message i channel text) notes
            ≡ count_key ((h.clients i).channels) channel)
      × ((i : ℕ) (q : Bytes)
          → count_notes (is_pmessage i q channel text) notes
            ≡ if_hit (stringmatchlen q channel false) (count_key ((h.clients i).patterns) q))
unfolding publish_command publish_message
publish_command-counts channel text h a r =
    let cs = clients_of h.channels channel in
    let ms = messages channel text cs in
    let ps = pmessages channel text h.patterns in
    let sum : 0 + length ms + length ps ≡ length (ms ++ ps) =
      omega (arith, length-append {0} ms ps) in
    (
      ms ++ ps,
      ap (λ w. map_outcome reply_receivers (send_matching channel text h.patterns w))
            (send_messages-logged channel text cs 0 h)
          ∙ ap (map_outcome reply_receivers)
              (send_matching-logged channel text h.patterns (0 + length ms) (logged h ms) r)
          ∙ (λ i. done (integer (pos (sum i)), logged-logged h ms ps i)),
      λ i. omega (
        arith,
        count_notes-append (is_message i channel text) ms ps,
        count_notes-messages i channel text cs,
        count_notes-pmessages_none i channel text h.patterns,
        a.of_channels i channel,
      ),
      λ i q. omega (
        arith,
        count_notes-append (is_pmessage i q channel text) ms ps,
        count_notes-messages_none i q channel text cs,
        count_notes-pmessages i q channel text h.patterns,
        ap (if_hit (stringmatchlen q channel false)) (a.of_patterns i q),
      ),
    )
