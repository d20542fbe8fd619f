-- ===== src/Rdb/Entries.antt =====
-- rdb.c: the entries of one database, saved and loaded.
use gridapps.Rdb.Restore.{Restores, Loads, entry-round, Loads-round, Loads-nil, Loads-append}
use gridapps.Rdb.Reads.{IsLzf}
use gridapps.Rdb.{lenerr, fits}
use gridapps.Db.{is_some, time_or_minus_one}
use gridapps.Object.{Robj}
use gridapps.Rdb.Snapshot.{
  Config, Database, add_to, alive, is_minus_one, add_loaded, save_entry, next, save_entries, both,
}
use gridapps.Prelude.{
  true, false, none, some, refl, inl, inr, [], arith, ◌∷◌, Bytes, Map, find, ℕ, ◌++◌, ℤ, ◌≡◌, Bool,
  if◌then◌else◌, length, append_assoc, append-nil, put-append, bytes_eq, find-append, ◌<◌,
  Bool-cases, ◌∙◌, ◌&&◌, bytes_eq_iff, ◌||◌, List, get_elem?-append, set-append, bytes_eq_refl,
}

-- A key is loaded if its time was not over when it was saved, nor is when it is loaded, which a
-- slave does not ask.
abbrev pub survives : Config → ℕ → ℕ → ℤ → Bool
survives c saved now t = alive saved t && (c.slave || alive now t)

-- A database behind another.
abbrev pub joined : Database → Database → Database
joined a b = record { dict = a.dict ++ b.dict; expires = a.expires ++ b.expires }

abbrev pub no_keys : Database
no_keys = record { dict = []; expires = [] }

-- A database of one key.
abbrev pub one_key : Bytes → Robj → ℤ → Database
one_key key o t = record {
  dict = (key, o) ∷ [];
  expires = if is_minus_one t then [] else (key, t) ∷ [];
}

abbrev pub restored_entry : Config → (Robj → Robj) → ℕ → ℕ → Map ℤ → Bytes × Robj → Database
restored_entry c normal saved now expires (key, o) =
    let t = time_or_minus_one (find expires key) in
    if survives c saved now t then one_key key (normal o) t else no_keys

unfoldable pub restored_entries : Config → (Robj → Robj) → ℕ → ℕ → Map ℤ → Map Robj → Database
restored_entries c normal saved now expires [] = no_keys
restored_entries c normal saved now expires (e ∷ m) =
    joined (restored_entry c normal saved now expires e)
      (restored_entries c normal saved now expires m)

-- What rdbLoad makes of what rdbSave writes of a database: the keys that survive, in their order,
-- with their values and times.
abbrev pub restored : Config → (Robj → Robj) → ℕ → ℕ → Database → Database
restored c normal saved now db = restored_entries c normal saved now db.expires db.dict

-- The keys are distinct and shorter than the longest length, the values good, and the times are of
-- 32 bits.
abbrev pub GoodEntries : (Robj → Type 0) → Map ℤ → Map Robj → Type 0
GoodEntries Good expires [] = Unit
GoodEntries Good expires ((key, o) ∷ m) =
    (find m key ≡ none)
    × (length key < lenerr)
    × Good o
    × (fits 31 (time_or_minus_one (find expires key)) ≡ true)
    × GoodEntries Good expires m

-- None of the keys is in the database.
abbrev pub Apart : Database → Map Robj → Type 0
Apart d m =
    (key : Bytes)
    → is_some (find m key) ≡ true
    → (find d.dict key ≡ none) × (find d.expires key ≡ none)

joined_assoc : (a b d : Database) → joined (joined a b) d ≡ joined a (joined b d)
joined_assoc a b d =
    rw (append_assoc a.dict b.dict d.dict, append_assoc a.expires b.expires d.expires) refl

joined-no_keys : (d : Database) → joined d no_keys ≡ d
joined-no_keys d = rw (append-nil d.dict, append-nil d.expires) refl

add_to-joined :
    (d : Database) (key : Bytes) (o : Robj) (t : ℤ)
    → (find d.dict key ≡ none) × (find d.expires key ≡ none)
    → add_to (some d) key o t ≡ some (joined d (one_key key o t))
unfolding add_to
add_to-joined d key o t (h, h') =
    rw (h, put-append d.dict key o h, put-append d.expires key t h')
      (elim (Bool-cases (is_minus_one t)) [
        | inl e ↦ rw (e, append-nil d.expires) refl
        | inr e ↦ rw e refl
      ])

-- A key that is found behind an absent one is another key.
other-key {ℓ} :
    {V : Type ℓ} (m : Map V) (key j : Bytes)
    → find m key ≡ none
    → is_some (find m j) ≡ true
    → bytes_eq key j ≡ false
other-key m key j h e = elim (Bool-cases (bytes_eq key j)) [
  | inl same ↦ absurd (ground (arith, (bytes_eq_iff key j).0 same))
  | inr other ↦ other
]

one_key-other :
    (b : Bool) (key j : Bytes) (o : Robj) (t : ℤ)
    → bytes_eq key j ≡ false
    → (find (if b then one_key key o t else no_keys).dict j ≡ none)
      × (find (if b then one_key key o t else no_keys).expires j ≡ none)
unfolding find
one_key-other true key j o t h = ground arith
one_key-other false key j o t h = ground arith

Apart-joined :
    (c : Config) (normal : Robj → Robj) (saved now : ℕ) (expires : Map ℤ) (d : Database)
    (key : Bytes) (o : Robj) (m : Map Robj)
    → find m key ≡ none
    → Apart d ((key, o) ∷ m)
    → Apart (joined d (restored_entry c normal saved now expires (key, o))) m
unfolding find
Apart-joined c normal saved now expires d key o m h apart j e =
    let other = other-key m key j h e in
    let (in_dict, in_expires) = apart j (rw other e) in
    let entry = restored_entry c normal saved now expires (key, o) in
    let t = time_or_minus_one (find expires key) in
    let (entry_dict, entry_expires) =
      one_key-other (survives c saved now t) key j (normal o) t other in
    (
      find-append d.dict entry.dict j in_dict ∙ entry_dict,
      find-append d.expires entry.expires j in_expires ∙ entry_expires,
    )

module _ (c : Config) (lzf : IsLzf c.compress c.decompress) (Good : Robj → Type 0)
    (normal : Robj → Robj) (law : Restores c Good normal) (saved now : ℕ) where
  -- A key that is loaded goes to the current database, unless its time is over.
  added :
      (front after : List Database) (d : Database) (key : Bytes) (o : Robj) (t : ℤ) (rest : Bytes)
      → (find d.dict key ≡ none) × (find d.expires key ≡ none)
      → add_loaded c now (front ++ (d ∷ after)) (length front) t key o rest
        ≡ next
            (front
              ++ (joined d (if c.slave || alive now t then one_key key o t else no_keys) ∷ after))
            (length front)
            rest
  unfolding add_loaded
  added front after d key o t rest h = elim (Bool-cases (c.slave || alive now t)) [
    | inl live ↦
        rw
          (
            live,
            get_elem?-append front after d,
            add_to-joined d key o t h,
            set-append front after d (joined d (one_key key o t)),
          )
          refl
    | inr over ↦ rw (over, joined-no_keys d) refl
  ]

  -- What is written for an entry is loaded as the entry, if it survives.
  entry-Loads :
      (expires : Map ℤ) (key : Bytes) (o : Robj)
      → length key < lenerr
      → Good o
      → fits 31 (time_or_minus_one (find expires key)) ≡ true
      → (out : Bytes) × (save_entry c saved expires (key, o) ≡ some out)
        × ((front after : List Database) (d : Database)
            → (find d.dict key ≡ none) × (find d.expires key ≡ none)
            → Loads c now out
                (front ++ (d ∷ after))
                (length front)
                (front ++ (joined d (restored_entry c normal saved now expires (key, o)) ∷ after))
                (length front))
  unfolding save_entry
  entry-Loads expires key o short good wide =
      let t = time_or_minus_one (find expires key) in
      elim (Bool-cases (alive saved t)) [
        | inl live ↦
            let (out, saves, some_bytes, round) =
              entry-round c lzf Good normal law now saved expires key o short good wide live in
            (
              out,
              saves,
              (λ front after d h. rw live (
                  Loads-round c now out _ _ _ _ some_bytes
                    (λ rest. round _ _ rest ∙ added front after d key (normal o) t rest h))),
            )
        | inr over ↦ (
          [],
          rw over refl,
          (λ front after d h. rw (over, joined-no_keys d) (Loads-nil c now _ _)),
        )
      ]

  -- The current database gets the entries that survive, behind what it has.
  pub entries-Loads :
      (expires : Map ℤ) (m : Map Robj)
      → GoodEntries Good expires m
      → (out : Bytes) × (save_entries c saved expires m ≡ some out)
        × ((front after : List Database) (d : Database)
            → Apart d m
            → Loads c now out
                (front ++ (d ∷ after))
                (length front)
                (front ++ (joined d (restored_entries c normal saved now expires m) ∷ after))
                (length front))
  unfolding save_entries restored_entries both
  entries-Loads expires [] good =
      ([], refl, (λ front after d apart. rw (joined-no_keys d) (Loads-nil c now _ _)))
  entries-Loads expires ((key, o) ∷ m) (fresh, short, good, wide, rest) =
      let (first, saves, loads) = entry-Loads expires key o short good wide in
      let (others, saves', loads') = entries-Loads expires m rest in
      let entry = restored_entry c normal saved now expires (key, o) in
      (
        first ++ others,
        rw (saves, saves') refl,
        (λ front after d apart.
            rw (← joined_assoc d entry (restored_entries c normal saved now expires m)) (
              Loads-append c now first others _ _ _ _ _ _
                (loads front after d (apart key (unfold find in rw (bytes_eq_refl key) refl)))
                (loads' front after (joined d entry)
                  (Apart-joined c normal saved now expires d key o m fresh apart)))),
      )
