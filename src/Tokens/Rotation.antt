-- ===== src/Tokens/Rotation.antt =====
-- A refresh token can be exchanged once.
use dalm_backend.Models.{DateTime}
use dalm_backend.Prelude.{
  Bool, String, all, ap, arith, eq_iff, false, inl, inr, none, refl, sym, true, ◌∙◌, ◌≡◌, ◌≢◌,
}
use dalm_backend.Store.{Result, err, is_ok, ok}
use dalm_backend.TokenStore.{Active, lookup, rotate}
use dalm_backend.TokenStore.Laws.{rotate_lem}
use dalm_backend.Tokens.{
  Decoded, Jwt, Payload, TokenClaims, TokenPair, TokenSettings, TokenType, claims_of, decode_token,
  expired_signature, invalid_token, payload, refresh, rotate_pair, type_name,
}

-- Documented of the signing library: a token is read as one payload, whenever it is read.
abbrev pub IsStable : Jwt → Type 0
IsStable jwt =
    (token : String) (t t' : DateTime) (b b' : Bool) (p p' : Payload)
    → jwt.decode t b token ≡ payload p
    → jwt.decode t' b' token ≡ payload p'
    → p ≡ p'

rotate_spent :
    (old new subject : String) (m : Active)
    → old ≢ new
    → (rotate old new subject m).0 ≡ true
    → lookup old (rotate old new subject m).1 ≡ none
rotate_spent old new subject m fresh h = elim (rotate_lem old new subject m) [
  | inl (active, rotated, all) ↦ all old ∙ ground (arith, eq_iff new old, eq_iff old old)
  | inr (inactive, same) ↦ absurd (ground arith)
]

module _ (jwt : Jwt) (settings : TokenSettings) where
  decode_token_ok :
      (now : DateTime) (token : String) (type : TokenType) (c : TokenClaims)
      → decode_token jwt settings now token type ≡ ok c
      → (p : Payload) × (jwt.decode now true token ≡ payload p)
        × (c ≡ claims_of jwt settings p)
        × (p.type ≡ type_name type)
  unfolding decode_token
  decode_token_ok now token type c h = go (jwt.decode now true token) refl
    where
      go :
          (r : Decoded)
          → jwt.decode now true token ≡ r
          → (p : Payload) × (jwt.decode now true token ≡ payload p)
            × (c ≡ claims_of jwt settings p)
            × (p.type ≡ type_name type)
      go (payload p) e = (
        p,
        e,
        ground (arith, eq_iff p.type (type_name type)),
        ground (arith, eq_iff p.type (type_name type)),
      )
      go expired_signature e = absurd (expired (jwt.decode now false token) refl)
        where
          expired : (r : Decoded) → jwt.decode now false token ≡ r → ⊥
          expired (payload p) k = ground arith
          expired expired_signature k = ground arith
          expired invalid_token k = ground arith
      go invalid_token e = absurd (ground arith)

  rotate_pair_ok :
      (now : DateTime) (token a r : String) (m : Active) (pair : TokenPair)
      → (rotate_pair jwt settings now token a r m).0 ≡ ok pair
      → (c : TokenClaims) × (decode_token jwt settings now token refresh ≡ ok c)
        × ((rotate c.token_id r c.subject m).0 ≡ true)
        × ((rotate_pair jwt settings now token a r m).1 ≡ (rotate c.token_id r c.subject m).1)
  unfolding rotate_pair
  rotate_pair_ok now token a r m pair h = go (decode_token jwt settings now token refresh) refl
    where
      go :
          (d : Result TokenClaims)
          → decode_token jwt settings now token refresh ≡ d
          → (c : TokenClaims) × (decode_token jwt settings now token refresh ≡ ok c)
            × ((rotate c.token_id r c.subject m).0 ≡ true)
            × ((rotate_pair jwt settings now token a r m).1 ≡ (rotate c.token_id r c.subject m).1)
      go (ok c) e = (c, e, ground arith, ground arith)
      go (err x) e = absurd (ground arith)

  rotate_inactive :
      (now : DateTime) (token a r : String) (m : Active)
      → ((c : TokenClaims)
          → decode_token jwt settings now token refresh ≡ ok c
          → lookup c.token_id m ≡ none)
      → (is_ok (rotate_pair jwt settings now token a r m).0 ≡ false)
        × ((rotate_pair jwt settings now token a r m).1 ≡ m)
  unfolding rotate_pair
  rotate_inactive now token a r m h = go (decode_token jwt settings now token refresh) refl
    where
      go :
          (d : Result TokenClaims)
          → decode_token jwt settings now token refresh ≡ d
          → (is_ok (rotate_pair jwt settings now token a r m).0 ≡ false)
            × ((rotate_pair jwt settings now token a r m).1 ≡ m)
      go (err x) e = ground arith
      go (ok c) e = ground (arith, h c e, rotate_lem c.token_id r c.subject m)

  -- With a signing library that reads a token as one payload, a refresh token can be exchanged
  -- for a new pair once. After an exchange whose new identifier is not the old one, the same
  -- token is refused at every time, whatever new identifiers are drawn, and the store stays as
  -- it is.
  pub rotate_pair_once :
      (now later : DateTime) (token a r a' r' : String) (m : Active) (pair : TokenPair)
      → IsStable jwt
      → ((c : TokenClaims) → decode_token jwt settings now token refresh ≡ ok c → c.token_id ≢ r)
      → (rotate_pair jwt settings now token a r m).0 ≡ ok pair
      → let m' = (rotate_pair jwt settings now token a r m).1 in
        (is_ok (rotate_pair jwt settings later token a' r' m').0 ≡ false)
        × ((rotate_pair jwt settings later token a' r' m').1 ≡ m')
  rotate_pair_once now later token a r a' r' m pair stable fresh h =
      let (c, e, rotated, after) = rotate_pair_ok now token a r m pair h in
      rotate_inactive later token a' r' (rotate_pair jwt settings now token a r m).1 λ c' e'.
        let (p, read, same, q) = decode_token_ok now token refresh c e in
        let (p', read', same', q') = decode_token_ok later token refresh c' e' in
        let id : c'.token_id ≡ c.token_id =
          ap (λ k. k.token_id) same'
          ∙ ap (λ k. k.jti) (stable token later now true true p' p read' read)
          ∙ sym (ap (λ k. k.token_id) same) in
        ap (λ m'. lookup c'.token_id m') after
        ∙ ap (λ k. lookup k (rotate c.token_id r c.subject m).1) id
        ∙ rotate_spent c.token_id r c.subject m (fresh c e) rotated
