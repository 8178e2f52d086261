-- ===== src/Skills/Blobs.antt =====
-- The stored payloads: `create_artifact_blob`, `get_artifact_blob` and `get_payload_by_ref`.
use astrbot_shipyard_neo.Base.{ℕ, Option, none, some, List, ◌∷◌, ◌==◌, ◌&&◌, first, ℤ}
use astrbot_shipyard_neo.World.Runtime.{Error, Result, ok, raise}
use astrbot_shipyard_neo.Path.Split.{Text}
use astrbot_shipyard_neo.Skills.History.{PayloadRef, blob, other_ref}

-- A JSON value in a step: null, an integer, a text, or any other.
pub data Value : Type 0 where
  null : Value
  integer : ℤ → Value
  text : Text → Value
  other_value : ℕ → Value

-- A step as the runtime reports it, by the keys that are read. A key that is absent is `none`.
pub record RawStep : Type 0 where
  pub cmd : Option Value
  pub exit_code : Option Value
  pub kind : Option Value

-- The JSON text of a payload: one that does not parse, one that is neither an object nor an array, an
-- object with its `steps`, if they are an array, and its own step keys, and an array. An item of an
-- array that is no object is `none`.
pub data Payload : Type 0 where
  invalid unsupported : Payload
  object : (steps : Option (List (Option RawStep))) (own : RawStep) → Payload
  array : List (Option RawStep) → Payload

pub record ArtifactBlob : Type 0 where
  pub id : ℕ
  pub owner : ℕ
  pub payload : Payload

unfoldable pub create_artifact_blob :
    ℕ → ℕ → Payload → List ArtifactBlob → ArtifactBlob × List ArtifactBlob
create_artifact_blob new_id owner payload blobs =
    let b : ArtifactBlob = record { id = new_id; owner = owner; payload = payload } in
    (b, b ∷ blobs)

abbrev found_blob : Option ArtifactBlob → Result ArtifactBlob
found_blob none = raise Error.not_found
found_blob (some b) = ok b

unfoldable pub get_artifact_blob : ℕ → ℕ → List ArtifactBlob → Result ArtifactBlob
get_artifact_blob owner blob_id blobs =
    found_blob (first (λ b. (b.id == blob_id) && (b.owner == owner)) blobs)

-- `json.loads`, and the test of the type
abbrev loaded : Payload → Result (Option Payload)
loaded invalid = raise Error.validation
loaded unsupported = raise Error.validation
loaded p = ok (some p)

abbrev payload_of : Result ArtifactBlob → Result (Option Payload)
payload_of (raise e) = raise e
payload_of (ok b) = loaded b.payload

unfoldable pub get_payload_by_ref :
    ℕ → Option PayloadRef → List ArtifactBlob → Result (Option Payload)
unfolding get_artifact_blob
get_payload_by_ref owner none blobs = ok none
get_payload_by_ref owner (some other_ref) blobs = raise Error.validation
get_payload_by_ref owner (some (blob k)) blobs = payload_of (get_artifact_blob owner k blobs)
