-- ===== src/Base/Json.antt =====
-- JSON values: what `json.Marshal` writes and `json.Unmarshal` reads, after the bytes are parsed.
-- `Bytes` is the value of a message; `garbage` stands for every value that is no JSON text.
use Prim.Native.String.{String}
use mathlib.Core.Option.{Option, none, some}
use mini_marketplace.Base.Tests.{if◌then◌else◌}
use mini_marketplace.Base.Texts.{text_eq}
use mini_marketplace.Base.Int.{ℤ, pos, in_int64}

mutual
  pub data Json : Type 0 where
    null : Json
    num : ℤ → Json
    text : String → Json
    arr : Items → Json
    obj : Fields → Json

  pub data Items : Type 0 where
    nil : Items
    cons : Json → Items → Items

  pub data Fields : Type 0 where
    end : Fields
    field : String → Json → Fields → Fields

pub data Bytes : Type 0 where
  garbage : Bytes
  encoded : Json → Bytes

-- The value under a key; of two fields with one key the later counts.
unfoldable pub key : String → Fields → Option Json
key k end = none
key k (field j v fs) = elim (key k fs) [
  | some w ↦ some w
  | none ↦ if text_eq k j then some v else none
]

-- `json.Unmarshal` into a field of type string: a missing key and null leave the zero value, and a
-- value of another type is an error, `none`.
unfoldable pub text_at : String → Fields → Option String
unfolding key
text_at k fs = elim (key k fs) [
  | none ↦ some ""
  | some null ↦ some ""
  | some (text s) ↦ some s
  | some _ ↦ none
]

-- The same into a field of type `int` or `int64`; a number that does not fit is an error.
unfoldable pub num_at : String → Fields → Option ℤ
unfolding key
num_at k fs = elim (key k fs) [
  | none ↦ some (pos 0)
  | some null ↦ some (pos 0)
  | some (num n) ↦ if in_int64 n then some n else none
  | some _ ↦ none
]

-- The same into a slice; the elements are read afterwards.
unfoldable pub items_at : String → Fields → Option Items
unfolding key
items_at k fs = elim (key k fs) [
  | none ↦ some nil
  | some null ↦ some nil
  | some (arr xs) ↦ some xs
  | some _ ↦ none
]
