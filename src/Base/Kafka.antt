-- ===== src/Base/Kafka.antt =====
-- Messages, and the read loop that every consumer of the four services has.
use Prim.Native.Nat.{ℕ, suc}
use Prim.Native.String.{String}
use mathlib.Core.List.{List, [], ◌∷◌, ◌++◌}
use mini_marketplace.Base.Json.{null, obj, Fields, end, Bytes, garbage, encoded}
use mini_marketplace.Base.Results.{Result, ok, err}
use mathlib.Core.Option.{Option, none, some}

pub record Message : Type 0 where
  pub topic : String
  pub key : String
  pub value : Bytes

-- What `FetchMessage` returns: a message, `context.Canceled`, or another error.
pub data Fetched : Type 0 where
  message : Message → Fetched
  canceled : Fetched
  fetch_error : Fetched

-- `json.Unmarshal` into a struct: the fields to read, or `none` for an error. A JSON null leaves
-- the struct as it is.
unfoldable pub fields_of : Bytes → Option Fields
fields_of garbage = none
fields_of (encoded (obj fs)) = some fs
fields_of (encoded null) = some end
fields_of (encoded _) = none

module _ {E S : Type 0} (handle : ℕ → Message → S → Result E (Unit {0}) × S) where
  -- The loop `Run` over what it fetches, up to the end of the list or a cancelled context: a
  -- message is committed if its handler returned nil. The result is the state and the messages
  -- committed, in order. `n` numbers the rounds.
  unfoldable pub consume : ℕ → List Fetched → S → List Message → S × List Message
  consume n [] s commits = (s, commits)
  consume n (canceled ∷ rest) s commits = (s, commits)
  consume n (fetch_error ∷ rest) s commits = consume (suc n) rest s commits
  consume n (message m ∷ rest) s commits =
      let (r, s') = handle n m s in
      consume (suc n) rest s' (elim r [ ok _ ↦ commits ++ m ∷ [] | err e ↦ commits ])

module _ {E S : Type 0} (handle : ℕ → Message → S → Result E (Unit {0}) × S) (P : S → Type 0) where
  -- What every handled message keeps, the loop keeps.
  pub consume_keeps :
      ((n : ℕ) (m : Message) (s : S) → P s → P (handle n m s).1)
      → (n : ℕ) (fetched : List Fetched) (s : S) (commits : List Message) → P s
      → P (consume handle n fetched s commits).0
  unfolding consume
  consume_keeps keep n [] s commits p = p
  consume_keeps keep n (canceled ∷ rest) s commits p = p
  consume_keeps keep n (fetch_error ∷ rest) s commits p =
      consume_keeps keep (suc n) rest s commits p
  consume_keeps keep n (message m ∷ rest) s commits p =
      consume_keeps keep (suc n) rest (handle n m s).1 _ (keep n m s p)
