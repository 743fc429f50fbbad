-- ===== src/Domain/Values.antt =====
-- Values that the domain models share: timestamps, JSON facts, and the functions of Python's
-- standard library that the domain calls.
use opercerta.Common.{ℕ, ℤ, String, Bool, List, ◌*◌, ltb_ℤ, pos, pos_part}
use opercerta.Domain.Errors.{Result, ok, err, value_error, raise_if, ◌>>◌}

-- a `datetime`, in microseconds since an epoch, with or without a time zone
pub data DateTime : Type 0 where
  aware : ℕ → DateTime
  naive : ℕ → DateTime

-- `_require_timezone`: what it lets through is an instant
unfoldable pub require_timezone : DateTime → Result ℕ
require_timezone (aware t) = ok t
require_timezone (naive t) = err (value_error "timestamp must include timezone")

-- `timedelta(seconds=n)`, in microseconds
abbrev pub seconds : ℕ → ℕ
seconds n = n * 1000000

-- a validator that lets no negative integer through
unfoldable pub non_negative : ℤ → String → Result ℕ
non_negative n message = do raise_if (ltb_ℤ n (pos 0)) (value_error message); ok (pos_part n)

-- pydantic's `PositiveInt`
unfoldable pub positive : ℤ → Result ℕ
positive n = do
  raise_if (ltb_ℤ n (pos 1)) (value_error "Input should be greater than 0")
  ok (pos_part n)

-- the JSON scalars of the facts that are hashed
pub data JsonValue : Type 0 where
  null : JsonValue
  bool : Bool → JsonValue
  number : ℤ → JsonValue
  text : String → JsonValue

-- a JSON object, in the order in which the source writes its keys
abbrev pub JsonObject : Type 0
JsonObject = List (String × JsonValue)

-- a SHA-256 in hexadecimal
abbrev pub Digest : Type 0
Digest = String

-- What is called and is not part of the repository: SHA-256 over `json.dumps`, `isoformat` and
-- `str.strip`.
pub record Runtime : Type 0 where
  pub sha256 : JsonObject → Digest
  pub isoformat : ℕ → String
  pub strip : String → String

-- `hash_payload` of domain/work_orders.py; the runtime's digest takes the sorted JSON of an object
abbrev pub hash_payload : Runtime → JsonObject → Digest
hash_payload py payload = py.sha256 payload
