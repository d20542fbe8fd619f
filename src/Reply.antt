-- ===== src/Reply.antt =====
-- What the commands send back: the shared replies of redis.c and the error texts of the commands.
use gridapps.Prelude.{Bytes, ℤ, ℕ}

-- One constructor for each error text in the source.
pub data Message : Type 0 where
  not_an_integer : Message
  value_out_of_range : Message
  offset_out_of_range : Message
  invalid_bit_offset : Message
  invalid_bit : Message
  string_too_long : Message
  invalid_expire : Message
  wrong_mset_arity : Message
  would_overflow : Message
  nested_multi : Message
  exec_without_multi : Message
  discard_without_multi : Message
  watch_inside_multi : Message
  invalid_db_index : Message
  syntax_error : Message
  invalid_timeout : Message
  negative_timeout : Message

mutual
  pub data Reply : Type 0 where
    ok : Reply
    cone : Reply
    czero : Reply
    nullbulk : Reply
    nullmultibulk : Reply
    emptybulk : Reply
    wrongtypeerr : Reply
    nokeyerr : Reply
    sameobjecterr : Reply
    outofrangeerr : Reply
    queued : Reply
    error : Message → Reply
    status : Bytes → Reply
    integer : ℤ → Reply
    bulk : Bytes → Reply
    -- A bulk reply of bytes that are not all in the string: from a start, so many of them.
    wild : ℕ → ℕ → Reply
    multi : Replies → Reply

  pub data Replies : Type 0 where
    nil : Replies
    cons : Reply → Replies → Replies
