-- ===== src/Db/Secrets/RoundTrip.antt =====
-- What is stored by token_hash.go and webhook_crypto.go is read back by them.
use acb_go.Prelude.{
  ℕ, String, ◌≡◌, ◌↔◌, ◌≢◌, subst, true, none, some, List, [], ◌∷◌, ◌++◌, arith, length, take, drop,
  length-append, take-append, drop-append,
}
use acb_go.Db.Secrets.{
  Crypto, same_bytes, hash_token, verify_token, init_cipher, encrypt_with, encrypt_webhook_secret,
  decrypt_webhook_secret,
}

-- What the code relies on: base64 decodes what it encodes, a derived key has 32 bytes, and the random
-- source fills a buffer.
pub record IsCrypto (c : Crypto) : Type 0 where
  pub decode-encode : (b : List ℕ) → c.decode64 (c.encode64 b) ≡ some b
  pub length-argon : (token : String) (salt : List ℕ) → length (c.argon token salt) ≡ 32
  pub length-random :
      (calls n : ℕ) (bytes : List ℕ) → c.random calls n ≡ some bytes → length bytes ≡ n

pub same_bytes_iff : (xs ys : List ℕ) → (same_bytes xs ys ≡ true) ↔ (xs ≡ ys)
unfolding same_bytes
same_bytes_iff [] [] = ground arith
same_bytes_iff [] (y ∷ ys) = ground arith
same_bytes_iff (x ∷ xs) [] = ground arith
same_bytes_iff (x ∷ xs) (y ∷ ys) = ground (arith, same_bytes_iff xs ys)

-- The first part of a list whose length is known.
split :
    (n : ℕ) (xs ys : List ℕ) → length xs ≡ n → (take n (xs ++ ys) ≡ xs) × (drop n (xs ++ ys) ≡ ys)
split n xs ys h =
    subst (λ k. (take k (xs ++ ys) ≡ xs) × (drop k (xs ++ ys) ≡ ys)) h
      (take-append xs ys, drop-append xs ys)

module _ (c : Crypto) (k : IsCrypto c) where
  -- A token is checked against the stored hash of another: the answer is that of the two Argon2id keys
  -- with the stored salt.
  verify_token-hash :
      (salt : List ℕ) (other token : String)
      → length salt ≡ 16
      → verify_token c other (c.encode64 (salt ++ c.argon token salt))
        ≡ some (same_bytes (c.argon other salt) (c.argon token salt))
  unfolding verify_token
  verify_token-hash salt other token h =
      let (t, d) = split 16 salt (c.argon token salt) h in
      rw (k.decode-encode (salt ++ c.argon token salt), t, d)
        (ground (
          arith,
          length-append salt (c.argon token salt),
          k.length-argon token salt,
          k.length-argon other salt,
        ))

  -- A token that hash_token stores is accepted by verify_token with the stored hash; another token is
  -- accepted exactly if Argon2id gives it the same key with the stored salt; and the check ends in an
  -- error for no token. The salt has 16 bytes, as in hashToken.
  pub verify_token-hash_token :
      (salt : List ℕ) (token other hash prefix : String)
      → length salt ≡ 16
      → hash_token c (some salt) token ≡ some (hash, prefix)
      → (verify_token c token hash ≡ some true)
        × ((verify_token c other hash ≡ some true) ↔ (c.argon other salt ≡ c.argon token salt))
        × (verify_token c other hash ≢ none)
  unfolding hash_token
  verify_token-hash_token salt token other hash prefix l h =
      let e : c.encode64 (salt ++ c.argon token salt) ≡ hash = cc in
      let own = verify_token-hash salt token token l in
      let v = verify_token-hash salt other token l in
      rw (← e) (
        ground (
          arith,
          own,
          v,
          same_bytes_iff (c.argon token salt) (c.argon token salt),
          same_bytes_iff (c.argon other salt) (c.argon token salt),
        ))

  -- A webhook secret that was encrypted is decrypted to itself, if GCM opens with a key and a nonce of
  -- 12 bytes what it sealed with them.
  pub decrypt-encrypt :
      (key nonce : List ℕ) (text stored : String)
      → c.open_sealed key nonce (c.seal key nonce text) ≡ some text
      → length nonce ≡ 12
      → init_cipher c ≡ some key
      → encrypt_webhook_secret c (some nonce) text ≡ some stored
      → decrypt_webhook_secret c stored ≡ some text
  unfolding encrypt_webhook_secret decrypt_webhook_secret
  decrypt-encrypt key nonce text stored o l i h =
      let (t, d) = split 12 nonce (c.seal key nonce text) l in
      let h' : encrypt_with c (some key) (some nonce) text ≡ some stored =
        subst (λ x. encrypt_with c x (some nonce) text ≡ some stored) i h in
      let e : c.encode64 (nonce ++ c.seal key nonce text) ≡ stored = cc in
      rw (← e, i, k.decode-encode (nonce ++ c.seal key nonce text), t, d)
        (ground (arith, o, length-append nonce (c.seal key nonce text)))
