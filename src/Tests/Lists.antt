-- ===== src/Tests/Lists.antt =====
-- Commands on lists at a concrete keyspace.
use gridapps.Util.Number.{string2l, ll2string}
use gridapps.Lists.Equal.{NulFree}
use gridapps.Prelude.{
  true, false, some, refl, pos, [], arith, ◌∷◌, List, codes, find, Bytes, Option, bytes_eq, ◌≡◌, ℕ,
  inl, inr, ◌++◌,
}
use gridapps.Lists.Writes.{
  pop_generic_command-push, lset_command-replaces, lrem_command-cut, insert_command-Beside,
  removed_by, left_by, cut, insert_reply, insert_effect, rewritten, Names,
}
use gridapps.Lists.Replies.{
  lrange_command-total, ltrim_command-total, range_reply, trim_reply, trim_effect, relisted,
}
use gridapps.Lists.Edited.{Beside}
use gridapps.Lists.Edits.{lrem_command, insert_command, lrem_of, list_type_equal, lrem_loop}
use gridapps.Lists.Ranges.{lrange_command, ltrim_command}
use gridapps.Lists.{
  pop_generic_command, lset_command, list_type_push, atoi, wrap32, element_at, lindex_command,
}
use gridapps.Strings.Basic.Read.{after_read}
use gridapps.Object.{
  list, strtoll, strtoll_digits, before_nul, try_object_encoding, equal_string_objects,
  get_decoded_object, raw,
}
use gridapps.Reply.{bulk, ok, integer}
use gridapps.Util.Number.{digits}
use gridapps.Db.Evict.{IsSound, evict}
use gridapps.Db.{Keyspace, done, Env}
use gridapps.Commands.{empty}
use gridapps.Tests.{master_at}

abbrev letters : List Bytes
letters = codes "a" ∷ codes "b" ∷ codes "a" ∷ codes "c" ∷ []

abbrev with_letters : Keyspace
with_letters = record empty { dict = (codes "l", list letters) ∷ [] }

with_letters-IsSound : IsSound with_letters
unfolding find
with_letters-IsSound = record { owned = λ k p. ground arith }

finds_letters :
    find (evict (master_at 5) (codes "l") with_letters).dict (codes "l") ≡ some (list letters)
unfolding find bytes_eq evict
finds_letters = refl

lrange_example :
    lrange_command (master_at 5) (codes "l") (codes "1") (codes "-2") with_letters
    ≡ done (
      range_reply
          (atoi (codes "1"))
          (atoi (codes "-2"))
          (find (evict (master_at 5) (codes "l") with_letters).dict (codes "l")),
      after_read (master_at 5) (codes "l") with_letters,
    )
unfolding find bytes_eq evict
lrange_example =
    lrange_command-total (master_at 5) (codes "l") (codes "1") (codes "-2") with_letters
      with_letters-IsSound (omega arith)

ltrim_example :
    ltrim_command (master_at 5) (codes "l") (codes "1") (codes "-2") with_letters
    ≡ done (
      trim_reply (find (evict (master_at 5) (codes "l") with_letters).dict (codes "l")),
      trim_effect
          (codes "l")
          (atoi (codes "1"))
          (atoi (codes "-2"))
          (find (evict (master_at 5) (codes "l") with_letters).dict (codes "l"))
          (evict (master_at 5) (codes "l") with_letters),
    )
unfolding find bytes_eq evict
ltrim_example =
    ltrim_command-total (master_at 5) (codes "l") (codes "1") (codes "-2") with_letters
      with_letters-IsSound (omega arith)

pop_example :
    (v : Bytes) × (rest : List Bytes) × (letters ≡ list_type_push false v rest)
    × (pop_generic_command (master_at 5) false (codes "l") with_letters
        ≡ done (bulk v, relisted (codes "l") rest (evict (master_at 5) (codes "l") with_letters)))
pop_example =
    pop_generic_command-push (master_at 5) false (codes "l") (codes "a")
      (codes "b" ∷ codes "a" ∷ codes "c" ∷ []) with_letters with_letters-IsSound finds_letters

last_Names : Names (atoi (codes "-1")) (codes "a" ∷ codes "b" ∷ codes "a" ∷ []) []
unfolding atoi wrap32 strtoll strtoll_digits
last_Names = refl

lset_example :
    (lset_command (master_at 5) (codes "l") (codes "-1") (codes "z") with_letters
      ≡ done (
        ok,
        rewritten
            (codes "l")
            ((codes "a" ∷ codes "b" ∷ codes "a" ∷ []) ++ codes "z" ∷ [])
            (evict (master_at 5) (codes "l") with_letters),
      ))
    × (lindex_command (master_at 5) (codes "l") (codes "-1") with_letters
        ≡ done (bulk (codes "c"), after_read (master_at 5) (codes "l") with_letters))
    × (element_at ((codes "a" ∷ codes "b" ∷ codes "a" ∷ []) ++ codes "z" ∷ []) (atoi (codes "-1"))
        ≡ some (codes "z"))
lset_example =
    lset_command-replaces (master_at 5) (codes "l") (codes "-1") (codes "z") (codes "c")
      (codes "a" ∷ codes "b" ∷ codes "a" ∷ []) [] with_letters with_letters-IsSound finds_letters
      last_Names

-- A server whose lists are linked lists.
abbrev linked_at : ℕ → Env
linked_at t = record (master_at t) { linked = λ k. true }

letters_free : (v : Bytes) → before_nul v ≡ v → NulFree (v ∷ letters)
unfolding before_nul
letters_free v h = (h, (refl, (refl, (refl, (refl, tt)))))

free_a : before_nul (codes "a") ≡ codes "a"
unfolding before_nul
free_a = refl

lrem_example :
    lrem_command (linked_at 5) (codes "l") (codes "-1") (codes "a") with_letters
    ≡ done (
      integer (pos (removed_by (atoi (codes "-1")) (codes "a") letters)),
      cut
          (codes "l")
          (removed_by (atoi (codes "-1")) (codes "a") letters)
          (left_by (atoi (codes "-1")) (codes "a") letters)
          (evict (linked_at 5) (codes "l") with_letters),
    )
unfolding evict
lrem_example =
    lrem_command-cut (linked_at 5) (codes "l") (codes "-1") (codes "a") letters with_letters
      with_letters-IsSound finds_letters (inr (letters_free (codes "a") free_a))

insert_example :
    (r : Option (List Bytes)) × Beside true (codes "b") (codes "x") letters r
    × (insert_command (master_at 5) (codes "l") true (codes "b") (codes "x") with_letters
        ≡ done (
          insert_reply r,
          insert_effect (codes "l") r (after_read (master_at 5) (codes "l") with_letters),
        ))
insert_example =
    insert_command-Beside (master_at 5) (codes "l") true (codes "b") (codes "x") letters
      with_letters with_letters-IsSound finds_letters (inl refl)

-- The element 12 of a linked list equals the bytes 12 nul x, and that of a ziplist does not.
abbrev nul_inside : Bytes
nul_inside = codes "12" ++ 0 ∷ codes "x"

removes_twelve :
    lrem_of
      (pos 0)
      (list_type_equal true (try_object_encoding 1 (raw nul_inside)))
      (codes "12" ∷ [])
    ≡ (1, [])
unfolding lrem_of list_type_equal try_object_encoding equal_string_objects lrem_loop string2l
    bytes_eq before_nul ll2string digits
removes_twelve = refl

keeps_twelve :
    lrem_of
      (pos 0)
      (list_type_equal false (try_object_encoding 1 (raw nul_inside)))
      (codes "12" ∷ [])
    ≡ (0, codes "12" ∷ [])
unfolding lrem_of list_type_equal try_object_encoding get_decoded_object lrem_loop string2l bytes_eq
keeps_twelve = refl
