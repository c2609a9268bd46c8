-- ===== src/Tests/Services.antt =====
-- Concrete services that meet what the code relies on: ciphers, a bucket, a resolver and a limiter.
use Prim.Native.Char.{code}
use Prim.Native.String.{len}
use text.Mathlib.Text.{starts_with}
use acb_go.Prelude.{
  ◌++◌, length, ℕ, zero, suc, ◌+◌, ◌-◌, String, ◌<>◌, ◌≡◌, ◌≢◌, ◌↔◌, refl, true, false, Option,
  none, some, List, [], ◌∷◌, ◌==◌, eq_iff, eqb, arith, if◌then◌else◌, Bool-cases, inl, inr, subst,
}
use acb_go.Config.{contains}
use acb_go.Session.{Blob, object_in, ok}
use acb_go.Db.Secrets.{Crypto}
use acb_go.Db.Secrets.RoundTrip.{IsCrypto}
use acb_go.Storage.Bucket.{Minio, Stat, found, fails, keys_of}
use acb_go.Api.Limiter.{Limiter}
use acb_go.Api.AgentHandler.{Registry}
use acb_go.Api.Dispatching.Urls.{Ip, Url, Net}
use acb_go.Api.Dispatching.Webhooks.{Signing}
use acb_go.Storage.Laws.{IsUp, IsBucket, Tells}

-- A number as so many marks and a stop.
abbrev marks : ℕ → String → String
marks zero s = String.◌∷◌ "b" s
marks (suc n) s = String.◌∷◌ "a" (marks n s)

abbrev pub encode : List ℕ → String
encode [] = ""
encode (n ∷ l) = marks n (encode l)

abbrev decode : ℕ → String → List ℕ
decode n String.[] = []
decode n (String.◌∷◌ c s) =
    let next = decode 0 s in
    let more = decode (suc n) s in if eqb (code c) b'b' then n ∷ next else more

decode-marks : (n k : ℕ) (s : String) → decode n (marks k s) ≡ (n + k) ∷ decode 0 s
decode-marks n zero s = ground arith
decode-marks n (suc k) s = ground (arith, decode-marks (suc n) k s)

decode-encode : (l : List ℕ) → decode 0 (encode l) ≡ l
decode-encode [] = refl
decode-encode (n ∷ l) = ground (arith, decode-marks 0 n (encode l), decode-encode l)

abbrev pub copies : ℕ → ℕ → List ℕ
copies zero x = []
copies (suc n) x = x ∷ copies n x

pub length-copies : (n x : ℕ) → length (copies n x) ≡ n
length-copies zero x = refl
length-copies (suc n) x = ground (arith, length-copies n x)

-- The key of a token is its length, and the cipher knows one secret.
abbrev pub crypto : Crypto
crypto = record {
  argon = λ token salt. copies 32 (len token);
  sha256 = λ token. len token ∷ [];
  encode64 = encode;
  decode64 = λ s. some (decode 0 s);
  seal = λ key nonce text. len text ∷ [];
  open_sealed = λ key nonce bytes. some "hush";
  getenv = λ key. encode (copies 32 1);
  random = λ calls size. some (copies size 0);
}

pub crypto-IsCrypto : IsCrypto crypto
crypto-IsCrypto = record {
  decode-encode = λ b. ground (arith, decode-encode b);
  length-argon = λ token salt. refl;
  length-random = λ calls n bytes h. ground (arith, h, length-copies n 0);
}

-- A bucket in memory; no call fails.
abbrev stat_of : Option Blob → Stat
stat_of none = fails "NoSuchKey"
stat_of (some b) = found b

abbrev without : String → List (String × Blob) → List (String × Blob)
without key [] = []
without key ((k, b) ∷ l) = let rest = without key l in if k == key then rest else (k, b) ∷ rest

abbrev under : String → List (String × Blob) → List String
under prefix [] = []
under prefix ((k, b) ∷ l) =
    let rest = under prefix l in if starts_with k prefix then k ∷ rest else rest

abbrev each_some : List String → List (Option String)
each_some [] = []
each_some (k ∷ l) = some k ∷ each_some l

abbrev pub memory : Minio
memory = record {
  put_object = λ key b e w. (ok true, record w { objects = (key, b) ∷ w.objects });
  get_object = λ key e w. (ok true, w);
  stat_open = λ key e w. (ok (stat_of (object_in w.objects key)), w);
  stat_object = λ key e w. (ok (stat_of (object_in w.objects key)), w);
  remove_object = λ key e w. (ok true, record w { objects = without key w.objects });
  list_objects = λ prefix e w. (ok (each_some (under prefix w.objects)), w);
  bucket_exists = λ e w. (ok (some true), w);
  make_bucket = λ e w. (ok true, w);
}

tells : (o : Option Blob) → Tells o (stat_of o)
tells none = λ h. refl
tells (some b) = refl

removed : (key : String) (l : List (String × Blob)) → object_in (without key l) key ≡ none
unfolding object_in
removed key [] = refl
removed key ((k, b) ∷ l) = ground (arith, removed key l)

kept :
    (key k : String) (l : List (String × Blob))
    → key ≢ k
    → object_in (without key l) k ≡ object_in l k
unfolding object_in
kept key k [] n = refl
kept key k ((j, b) ∷ l) n = ground (arith, eq_iff j key, eq_iff j k, kept key k l n)

keys-each_some : (l : List String) → keys_of (each_some l) ≡ some l
keys-each_some [] = refl
keys-each_some (k ∷ l) = rw (keys-each_some l) refl

contains-under :
    (prefix k : String) (l : List (String × Blob))
    → (contains (under prefix l) k ≡ true)
      ↔ ((starts_with k prefix ≡ true) × (object_in l k ≢ none))
unfolding contains object_in
contains-under prefix k [] = ground arith
contains-under prefix k ((j, b) ∷ l) = elim (Bool-cases (j == k)) [
  | inl e ↦ rw (← ((eq_iff j k).0 e)) (ground (arith, eq_iff j j, contains-under prefix j l))
  | inr e ↦ ground (arith, eq_iff j k, contains-under prefix k l)
]

pub memory-IsBucket : IsBucket memory
unfolding object_in
memory-IsBucket = record {
  put = λ key b e w. (
    true,
    record w { objects = (key, b) ∷ w.objects },
    refl,
    record {
      same_store = refl;
      same_calls = refl;
      same_spawned = refl;
      others = λ k n. ground (arith, eq_iff key k);
    },
    λ h. ground (arith, eq_iff key key),
  );
  remove = λ key e w. (
    true,
    record w { objects = without key w.objects },
    refl,
    record {
      same_store = refl;
      same_calls = refl;
      same_spawned = refl;
      others = λ k n. kept key k w.objects n;
    },
    λ h. removed key w.objects,
  );
  stat = λ key e w. (stat_of (object_in w.objects key), refl, tells (object_in w.objects key));
  list = λ prefix e w. (
    each_some (under prefix w.objects),
    refl,
    λ keys h k.
        let m : under prefix w.objects ≡ keys =
          ground (arith, h, keys-each_some (under prefix w.objects)) in
        subst
          (λ l.
            (contains l k ≡ true)
            ↔ ((starts_with k prefix ≡ true) × (object_in w.objects k ≢ none)))
          m (contains-under prefix k w.objects),
  );
}

pub memory-IsUp : IsUp memory
memory-IsUp = record { exists = λ e w. (some true, w, refl); make = λ e w. (true, w, refl) }

-- Two calls for every client.
abbrev pub two_calls : Limiter ℕ
two_calls = record { fresh = 2; allow_one = λ now n. if eqb n 0 then (false, 0) else (true, n - 1) }

-- Every URL is read as one of the same host, which has one public address.
abbrev pub public_ip : Ip
public_ip = some (8 ∷ 8 ∷ 8 ∷ 8 ∷ [])

abbrev pub hook : Url
hook = record { scheme = "https"; host = "hook.example" }

abbrev pub net : Net
net = record {
  parse_url = λ raw. some hook;
  lookup_ip_addr = λ host. some (public_ip ∷ []);
  allow_http_env = "";
}

-- Where the name leads to the local host by then.
abbrev pub rebound_net : Net
rebound_net = record net { lookup_ip_addr = λ host. some (some (127 ∷ 0 ∷ 0 ∷ 1 ∷ []) ∷ []) }

abbrev pub registry : Registry
registry = record { limiter = some (λ name. true); url_error = λ url. none; crypto = crypto }

abbrev pub signing : Signing
signing = record {
  url_error = λ url. none;
  marshal = λ p. p.action;
  hmac = λ key message. key <> message;
  crypto = crypto;
}

-- The hash of a token with a salt of zeros.
abbrev pub stored_hash : String
stored_hash = encode (copies 16 0 ++ copies 32 8)

abbrev pub stored_secret : String
stored_secret = encode (copies 12 0 ++ 4 ∷ [])
