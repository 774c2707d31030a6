-- ===== src/Paper/Window.antt =====
-- Forward windows of paper_trading.py: the commitment, its private preimage and its reveal. The
-- dicts are records here, so the tests of their key sets are the types. Bytes are numbers; `sha256`
-- of bytes and the encoding of texts are parameters.
pub mod Framing
use Prim.Native.Char.{code}
use Prim.Native.Nat.{◌/◌, ◌%◌}
use sharpearena.Prelude.{
  ℕ, zero, suc, String, Bool, false, not, ◌||◌, Option, some, List, [], ◌∷◌, ◌++◌, ◌==◌, str_eq,
  concat, ◌≡◌, arith, length, eq_refl, ◌&&◌,
}
use sharpearena.Python.Json.{Json, Fields, get, str}
use sharpearena.Python.Errors.{Result, ok, raise_if, value_error, ◌>>=◌, ◌>>◌}
use sharpearena.Python.Runtime.{Runtime, digest}

-- What a commitment is computed with.
pub record Hashing : Type 0 where
  pub sha256 : List ℕ → String
  pub utf8 : String → List ℕ

-- The dict that `make_forward_commitment` returns.
pub record Commitment : Type 0 where
  pub agent_id : String
  pub target_window : String
  pub commit_hash : String

-- The private file of `prepare_forward_window_commitment`.
pub record Preimage (F : Type 0) : Type 0 where
  pub agent_id : String
  pub target_window : String
  pub artifact_digest : String
  pub salt : String
  pub artifact_manifest : Json F

-- What `prepare_forward_window_commitment` returns and what it writes to its private file; the
-- public file is the commitment.
pub record Prepared (F : Type 0) : Type 0 where
  pub commitment : Commitment
  pub artifact_digest : String
  pub preimage : Preimage F

pub record ForwardWindowIdentity : Type 0 where
  pub agent_id : String
  pub target_window : String
  pub commit_hash : String
  pub artifact_digest : String

pub record Reveal (F : Type 0) : Type 0 where
  pub submission : Fields F
  pub artifact_digest : String
  pub salt : String

abbrev has_newline : String → Bool
has_newline String.[] = false
has_newline (String.◌∷◌ c s) = (code c == 10) || (code c == 13) || has_newline s

-- `not value or "\n" in value or "\r" in value`
unfoldable pub unusable : String → Bool
unusable s = str_eq s "" || has_newline s

-- The w low bytes of n, the highest first: `n.to_bytes(8, "big")` at 8.
unfoldable pub big_endian : ℕ → ℕ → List ℕ
big_endian zero n = []
big_endian (suc w) n = big_endian w (n / 256) ++ (n % 256 ∷ [])

unfoldable pub framed : List (List ℕ) → List ℕ
framed [] = []
framed (part ∷ parts) = big_endian 8 (length part) ++ (part ++ framed parts)

-- ForwardWindowIdentity.__post_init__
unfoldable pub window_identity : ForwardWindowIdentity → Result ForwardWindowIdentity
window_identity w = do
  raise_if (str_eq w.agent_id "") value_error "forward window identity requires agent_id"
  raise_if (str_eq w.target_window "") value_error "forward window identity requires target_window"
  raise_if (str_eq w.commit_hash "") value_error "forward window identity requires commit_hash"
  raise_if (str_eq w.artifact_digest "") value_error
      "forward window identity requires artifact_digest"
  ok w

-- `bind_forward_window`
unfoldable pub bind_forward_window : Commitment → String → Result ForwardWindowIdentity
bind_forward_window c artifact_digest = window_identity (record {
  agent_id = c.agent_id;
  target_window = c.target_window;
  commit_hash = c.commit_hash;
  artifact_digest = artifact_digest;
})

abbrev pub encoded : Hashing → List String → List (List ℕ)
encoded h [] = []
encoded h (part ∷ parts) = h.utf8 part ∷ encoded h parts

module _ (h : Hashing) where
  -- The bytes that are hashed.
  unfoldable pub commitment_bytes : List String → List ℕ
  commitment_bytes parts =
      h.utf8 "sharpebench-attest/commitment/v2"
      ++ ((0 ∷ []) ++ (big_endian 8 (length parts) ++ framed (encoded h parts)))

  abbrev refused : String → String → Result (Unit {0})
  refused name value =
      raise_if (unusable value) value_error
        (concat name " must be non-empty and contain no newline")

  -- `make_forward_commitment`
  unfoldable pub make_forward_commitment : String → String → String → String → Result Commitment
  make_forward_commitment agent_id target_window artifact_digest salt = do
    refused "agent_id" agent_id
    refused "target_window" target_window
    refused "artifact_digest" artifact_digest
    refused "salt" salt
    ok (record {
      agent_id = agent_id;
      target_window = target_window;
      commit_hash =
          h.sha256 (commitment_bytes (agent_id ∷ target_window ∷ artifact_digest ∷ salt ∷ []));
    })

abbrev pub same_commitment : Commitment → Commitment → Bool
same_commitment a b =
    str_eq a.agent_id b.agent_id
    && str_eq a.target_window b.target_window
    && str_eq a.commit_hash b.commit_hash

module _ {F : Type 0} where
  abbrev names_agent : Option (Json F) → String → Bool
  names_agent (some (str s)) agent_id = str_eq s agent_id
  names_agent _ agent_id = false

module _ {F : Type 0} ⦃r : Runtime F⦄ (h : Hashing) where
  -- `prepare_forward_window_commitment`; `same_path` is the test on the two paths.
  unfoldable pub prepare_forward_window_commitment :
      String → String → Json F → String → Bool → Result (Prepared F)
  prepare_forward_window_commitment agent_id target_window artifact_manifest salt same_path = do
    raise_if (str_eq salt "") value_error "forward commitment salt must be non-empty"
    raise_if same_path value_error "public commitment and private preimage paths must differ"
    let artifact_digest = digest artifact_manifest
    commitment ← make_forward_commitment h agent_id target_window artifact_digest salt
    ok (record {
      commitment = commitment;
      artifact_digest = artifact_digest;
      preimage = record {
        agent_id = agent_id;
        target_window = target_window;
        artifact_digest = artifact_digest;
        salt = salt;
        artifact_manifest = artifact_manifest;
      };
    })

  -- `forward_window_from_preimage`, on the value read from the file
  unfoldable pub forward_window_from_preimage : Preimage F → Result ForwardWindowIdentity
  forward_window_from_preimage p = do
    c ← make_forward_commitment h p.agent_id p.target_window p.artifact_digest p.salt
    bind_forward_window c p.artifact_digest

  -- `prepare_forward_window_reveal`
  unfoldable pub prepare_forward_window_reveal :
      Fields F → Commitment → Preimage F → Result (Reveal F)
  prepare_forward_window_reveal submission public p = do
    raise_if (not (names_agent (get "agent_id" submission) p.agent_id)) value_error
        "submission agent_id does not match the committed agent"
    raise_if (not (str_eq (digest p.artifact_manifest) p.artifact_digest)) value_error
        "private artifact manifest does not match artifact_digest"
    expected ← make_forward_commitment h p.agent_id p.target_window p.artifact_digest p.salt
    raise_if (not (same_commitment public expected)) value_error
        "private preimage does not open the public commitment"
    ok (record {
      submission = submission;
      artifact_digest = digest p.artifact_manifest;
      salt = p.salt;
    })

  -- The window that is rebuilt from the private preimage is the one that the prepared commitment is
  -- bound to.
  pub preimage_window :
      (agent_id target_window : String) (manifest : Json F) (salt : String) (same_path : Bool)
      (p : Prepared F)
      → prepare_forward_window_commitment agent_id target_window manifest salt same_path ≡ ok p
      → forward_window_from_preimage p.preimage ≡ bind_forward_window p.commitment p.artifact_digest
  unfolding prepare_forward_window_commitment forward_window_from_preimage make_forward_commitment
  preimage_window agent_id target_window manifest salt same_path p e = ground arith

  -- A prepared commitment is opened by its own preimage, for any submission of the committed agent.
  pub reveal_opens :
      (agent_id target_window : String) (manifest : Json F) (salt : String) (same_path : Bool)
      (p : Prepared F) (submission : Fields F)
      → prepare_forward_window_commitment agent_id target_window manifest salt same_path ≡ ok p
      → get "agent_id" submission ≡ some (str agent_id)
      → prepare_forward_window_reveal submission p.commitment p.preimage
        ≡ ok (record { submission = submission; artifact_digest = p.artifact_digest; salt = salt })
  unfolding prepare_forward_window_commitment prepare_forward_window_reveal make_forward_commitment
  reveal_opens agent_id target_window manifest salt same_path p submission e named = ground (
    arith,
    eq_refl agent_id,
    eq_refl target_window,
    eq_refl (digest manifest),
    eq_refl p.commitment.commit_hash,
  )
