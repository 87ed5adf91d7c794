-- ===== src/Doh/Certificate/Offers.antt =====
-- When a certificate is offered in a TLS handshake.
use outline_go_tun2socks.Common.{
  ℕ, ◌≡◌, ◌≢◌, ◌⊎◌, inl, inr, refl, ap, ◌∙◌, true, List, [], Option, none, some,
}
use outline_go_tun2socks.Doh.Certificate.{
  ClientAuth, PublicKey, ecdsa, other, Leaf, Certificate, empty_certificate, chain_of, offer_key,
  offer_leaf, offer, get_client_certificate, public,
}

-- The certificate is offered, with its key, and `Public` gives the key.
pub record Offered (parse : List ℕ → Option Leaf) (signer : Option ClientAuth) (c : Certificate)
    : Type 0 where
  pub auth : ClientAuth
  pub is : signer ≡ some auth
  pub cert : List ℕ
  pub is_cert : auth.client_certificate ≡ some cert
  pub leaf : Leaf
  pub parses : parse cert ≡ some leaf
  pub key : List ℕ
  pub is_ecdsa : public parse signer ≡ some (ecdsa key)
  pub offers : c ≡ record {
    chain = chain_of cert auth.intermediate_certificate;
    private_key = true;
    leaf = some leaf;
  }

abbrev pub NotEcdsa : Option PublicKey → Type 0
NotEcdsa key = (k : List ℕ) → key ≢ some (ecdsa k)

abbrev pub Decided : (List ℕ → Option Leaf) → Option ClientAuth → Certificate → Type 0
Decided parse signer c =
    Offered parse signer c ⊎ ((c ≡ empty_certificate) × NotEcdsa (public parse signer))

module _ (parse : List ℕ → Option Leaf) where
  public_key :
      (auth : ClientAuth) (cert : List ℕ) (leaf : Leaf)
      → auth.client_certificate ≡ some cert
      → parse cert ≡ some leaf
      → public parse (some auth) ≡ some leaf.public_key
  unfolding public
  public_key auth cert leaf is parses = rw (is, parses) refl

  offer_key-Decided :
      (auth : ClientAuth) (cert : List ℕ) (leaf : Leaf) (k : PublicKey)
      → auth.client_certificate ≡ some cert
      → parse cert ≡ some leaf
      → leaf.public_key ≡ k
      → Decided parse (some auth) (offer_key (chain_of cert auth.intermediate_certificate) leaf k)
  offer_key-Decided auth cert leaf (other key) is parses e =
      inr (refl, λ k h. cc (public_key auth cert leaf is parses, e, h))
  offer_key-Decided auth cert leaf (ecdsa key) is parses e = inl (record {
    auth = auth;
    is = refl;
    cert = cert;
    is_cert = is;
    leaf = leaf;
    parses = parses;
    key = key;
    is_ecdsa = public_key auth cert leaf is parses ∙ ap some e;
    offers = refl;
  })

  offer_leaf-Decided :
      (auth : ClientAuth) (cert : List ℕ) (o : Option Leaf)
      → auth.client_certificate ≡ some cert
      → parse cert ≡ o
      → Decided parse (some auth) (offer_leaf (chain_of cert auth.intermediate_certificate) o)
  unfolding public
  offer_leaf-Decided auth cert none is parses = inr (refl, λ k. rw (is, parses) (λ h. cc h))
  offer_leaf-Decided auth cert (some leaf) is parses =
      offer_key-Decided auth cert leaf leaf.public_key is parses refl

  offer-Decided :
      (auth : ClientAuth) (o : Option (List ℕ))
      → parse [] ≡ none
      → auth.client_certificate ≡ o
      → Decided parse (some auth) (offer parse auth o)
  unfolding public
  offer-Decided auth none no_nil is = inr (refl, λ k. rw (is, no_nil) (λ h. cc h))
  offer-Decided auth (some cert) no_nil is = offer_leaf-Decided auth cert (parse cert) is refl

  -- The nil certificate does not parse, and the signer answers the same each time. Then the handshake
  -- is given a certificate just if Public returns an ECDSA key: the signer's certificate, which parses,
  -- as the head of the chain, with the intermediate one behind it if there is one, and with its leaf
  -- and private key. Otherwise it is given the empty certificate, never an error.
  pub certificate_needs_ecdsa :
      parse [] ≡ none
      → (signer : Option ClientAuth) → Decided parse signer (get_client_certificate parse signer)
  unfolding get_client_certificate public
  certificate_needs_ecdsa no_nil none = inr (refl, λ k h. cc h)
  certificate_needs_ecdsa no_nil (some auth) =
      offer-Decided auth auth.client_certificate no_nil refl
