-- ===== src/Doh/Certificate.antt =====
-- The type `clientAuthWrapper` of intra/doh/client_auth.go. The app's signer is what its methods return,
-- and `parse` is `x509.ParseCertificate`.
pub mod Offers
use outline_go_tun2socks.Common.{ℕ, Bool, true, false, List, [], ◌∷◌, Option, none, some}

-- `ClientAuth`: nil is none.
pub record ClientAuth : Type 0 where
  pub client_certificate : Option (List ℕ)
  pub intermediate_certificate : Option (List ℕ)
  pub sign : List ℕ → Option (List ℕ)

pub data PublicKey : Type 0 where
  ecdsa other : List ℕ → PublicKey

pub record Leaf : Type 0 where
  pub public_key : PublicKey

-- The wrapper is its field `signer`. `private_key` says whether the key is the wrapper.
pub record Certificate : Type 0 where
  pub chain : List (List ℕ)
  pub private_key : Bool
  pub leaf : Option Leaf

abbrev pub empty_certificate : Certificate
empty_certificate = record { chain = []; private_key = false; leaf = none }

abbrev pub chain_of : List ℕ → Option (List ℕ) → List (List ℕ)
chain_of cert none = cert ∷ []
chain_of cert (some intermediate) = cert ∷ intermediate ∷ []

abbrev offer_key : List (List ℕ) → Leaf → PublicKey → Certificate
offer_key chain leaf (other key) = empty_certificate
offer_key chain leaf (ecdsa key) = record { chain = chain; private_key = true; leaf = some leaf }

abbrev offer_leaf : List (List ℕ) → Option Leaf → Certificate
offer_leaf chain none = empty_certificate
offer_leaf chain (some leaf) = offer_key chain leaf leaf.public_key

abbrev key_of : Option Leaf → Option PublicKey
key_of none = none
key_of (some leaf) = some leaf.public_key

abbrev or_nil : Option (List ℕ) → List ℕ
or_nil none = []
or_nil (some cert) = cert

module _ (parse : List ℕ → Option Leaf) where
  abbrev offer : ClientAuth → Option (List ℕ) → Certificate
  offer signer none = empty_certificate
  offer signer (some cert) = offer_leaf (chain_of cert signer.intermediate_certificate) (parse cert)

  -- `GetClientCertificate`, which never returns an error.
  unfoldable pub get_client_certificate : Option ClientAuth → Certificate
  get_client_certificate none = empty_certificate
  get_client_certificate (some signer) = offer signer signer.client_certificate

  -- `Public`, which parses the nil certificate too.
  unfoldable pub public : Option ClientAuth → Option PublicKey
  public none = none
  public (some signer) = key_of (parse (or_nil signer.client_certificate))

pub data SignError : Type 0 where
  no_certificate signing_failed : SignError

pub data Signed : Type 0 where
  signed : List ℕ → Signed
  unsigned : SignError → Signed

abbrev signed_or_failed : Option (List ℕ) → Signed
signed_or_failed none = unsigned signing_failed
signed_or_failed (some signature) = signed signature

unfoldable pub sign : Option ClientAuth → List ℕ → Signed
sign none digest = unsigned no_certificate
sign (some signer) digest = signed_or_failed (signer.sign digest)
