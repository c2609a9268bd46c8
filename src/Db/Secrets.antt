-- ===== src/Db/Secrets.antt =====
-- internal/db/token_hash.go and webhook_crypto.go: the hash of a token and the cipher of a webhook
-- secret. Bytes are numbers. Argon2id, SHA-256, AES-GCM, base64 and the random source are parameters.
pub mod RoundTrip
use Prim.Native.String.{slice}
use acb_go.Prelude.{
  ℕ, zero, suc, ◌+◌, String, Bool, true, ◌&&◌, Option, none, some, List, [], ◌∷◌, ◌++◌, ◌==◌, eqb,
  ltb, if◌then◌else◌, length, take, drop,
}

-- `key` is the text of the environment variable that getCipher reads at its first call.
pub record Crypto : Type 0 where
  pub argon : (token : String) → (salt : List ℕ) → List ℕ
  pub sha256 : String → List ℕ
  pub encode64 : List ℕ → String
  pub decode64 : String → Option (List ℕ)
  pub seal : (key nonce : List ℕ) → String → List ℕ
  pub open_sealed : (key nonce : List ℕ) → List ℕ → Option String
  pub getenv : String → String
  pub random : (calls size : ℕ) → Option (List ℕ)

-- subtle.ConstantTimeCompare.
unfoldable pub same_bytes : List ℕ → List ℕ → Bool
same_bytes [] [] = true
same_bytes [] (y ∷ ys) = Bool.false
same_bytes (x ∷ xs) [] = Bool.false
same_bytes (x ∷ xs) (y ∷ ys) = eqb x y && same_bytes xs ys

-- A text, or another where it is empty.
abbrev pub or_text : String → String → String
or_text a b = if a == "" then b else a

abbrev pub checked_key : Option (List ℕ) → Option (List ℕ)
checked_key none = none
checked_key (some bytes) = if eqb (length bytes) 32 then some bytes else none

abbrev pub nonce_size : ℕ
nonce_size = 12

module _ (c : Crypto) where
  unfoldable pub token_prefix : String → String
  token_prefix token = slice (c.encode64 (take 6 (c.sha256 token))) 0 8

  -- The hash and the prefix; `none` if there is no salt.
  unfoldable pub hash_token : (salt : Option (List ℕ)) → String → Option (String × String)
  hash_token none token = none
  hash_token (some salt) token = some (c.encode64 (salt ++ c.argon token salt), token_prefix token)

  abbrev pub verify_bytes : String → Option (List ℕ) → Option Bool
  verify_bytes token none = none
  verify_bytes token (some decoded) =
      if ltb (length decoded) (16 + 32)
      then none
      else let expected = c.argon token (take 16 decoded) in
        if eqb (length expected) (length (drop 16 decoded))
        then some (same_bytes expected (drop 16 decoded))
        else none

  -- `none` is an error.
  unfoldable pub verify_token : (token stored_hash : String) → Option Bool
  verify_token token stored_hash = verify_bytes token (c.decode64 stored_hash)

  -- The key of the cipher. AES and GCM take every key of 32 bytes.
  unfoldable pub init_cipher : Option (List ℕ)
  init_cipher =
      let key = or_text (c.getenv "ACB_WEBHOOK_SECRET_KEY") (c.getenv "WEBHOOK_SECRET_KEY") in
      if key == "" then none else checked_key (c.decode64 key)

  abbrev pub encrypt_with : Option (List ℕ) → Option (List ℕ) → String → Option String
  encrypt_with none n text = none
  encrypt_with (some key) none text = none
  encrypt_with (some key) (some nonce) text = some (c.encode64 (nonce ++ c.seal key nonce text))

  unfoldable pub encrypt_webhook_secret : (nonce : Option (List ℕ)) → String → Option String
  encrypt_webhook_secret nonce text = encrypt_with init_cipher nonce text

  abbrev pub decrypt_with : Option (List ℕ) → Option (List ℕ) → Option String
  decrypt_with none bytes = none
  decrypt_with (some key) none = none
  decrypt_with (some key) (some bytes) =
      if ltb (length bytes) nonce_size
      then none
      else c.open_sealed key (take nonce_size bytes) (drop nonce_size bytes)

  unfoldable pub decrypt_webhook_secret : String → Option String
  decrypt_webhook_secret encoded = decrypt_with init_cipher (c.decode64 encoded)
