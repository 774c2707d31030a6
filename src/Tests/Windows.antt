-- ===== src/Tests/Windows.antt =====
-- The theorems on forward windows at concrete inputs.
use sharpearena.Prelude.{ℕ, String, ◌≡◌, ◌<◌, refl, false, some, List, [], ◌∷◌, length, All, arith}
use sharpearena.Python.Json.{str, Fields, fields, get}
use sharpearena.Python.Errors.{ok}
use sharpearena.Python.Runtime.{digest}
use sharpearena.Paper.Window.{
  Hashing, Commitment, Prepared, prepare_forward_window_commitment, make_forward_commitment,
  unusable,
}
use sharpearena.Paper.Window.{encoded}
use sharpearena.Paper.Window.Framing.{Fits, bytes_hold, commitment_bytes-injective}
use sharpearena.Tests.Sample.{whole}

-- Stand-ins for the hash and the encoding.
abbrev hashing : Hashing
hashing = record { sha256 = λ bytes. "hash"; utf8 = λ s. 65 ∷ [] }

abbrev commitment : Commitment
commitment = record { agent_id = "agent"; target_window = "2031-Q1"; commit_hash = "hash" }

abbrev manifest_digest : String
manifest_digest = whole.sha256 "json"

abbrev prepared : Prepared ℕ
prepared = record {
  commitment = commitment;
  artifact_digest = manifest_digest;
  preimage = record {
    agent_id = "agent";
    target_window = "2031-Q1";
    artifact_digest = manifest_digest;
    salt = "salt";
    artifact_manifest = str "manifest";
  };
}

preparing :
    prepare_forward_window_commitment ⦃r = whole⦄ hashing "agent" "2031-Q1"
      (str "manifest")
      "salt"
      false
    ≡ ok prepared
unfolding prepare_forward_window_commitment make_forward_commitment unusable digest
preparing = refl

abbrev submission : Fields ℕ
submission = fields (("agent_id", str "agent") ∷ ("returns", str "none") ∷ [])

submission_named : get "agent_id" submission ≡ some (str "agent")
unfolding get fields
submission_named = refl

abbrev values : List String
values = "agent" ∷ "2031-Q1" ∷ "digest" ∷ "salt" ∷ []

values_fit : All Fits (encoded hashing values)
values_fit = (omega arith, (omega arith, (omega arith, (omega arith, tt))))

values_few : length values < bytes_hold 8
values_few = omega arith

commitment_bytes-injective_example : encoded hashing values ≡ encoded hashing values
commitment_bytes-injective_example =
    commitment_bytes-injective hashing values values values_few values_few values_fit values_fit
      refl
