-- ===== src/Issuer/Curve.antt =====
-- The keys that internal/issuer/issuer.go signs with.
use nats_guest_access.Prelude.{
  String, ℕ, ◌≡◌, ◌≢◌, subst, refl, not, if◌then◌else◌, Bool, true, false, Option, none, some,
  str_eq, eq_iff, Bool-cases, inl, inr, List,
}
use nats_guest_access.Access.{Issuer}
use nats_guest_access.Access.Readers.{take}
use nats_guest_access.Issuer.{
  Crypto, ParsedKey, ecdsa, other, TokenIssuer, new, parsed_key, new_from, load, hex,
}

module _ (c : Crypto) where
  -- An issuer that signs with a key on the right curve and publishes its public part, under an ID
  -- made from the digest of that part.
  pub record OnCurve (i : TokenIssuer c) : Type 0 where
    pub key : c.Key
    pub curve : c.curve key ≡ "P-256"
    pub published : i.public_key.key ≡ c.public_part key
    pub digest : List ℕ
    pub digested : c.thumbprint (c.public_part key) ≡ some digest
    pub named : i.public_key.key_id ≡ hex (take 8 digest)
    pub signs : c.new_signer key i.public_key.key_id ≡ some i.signer

  some_injective : {A : Type 0} {x y : A} → some x ≡ some y → x ≡ y
  some_injective h = cc

  abbrev made : c.Key → String → Issuer → c.Signer → TokenIssuer c
  made key kid settings signer = record {
    settings = settings;
    signer = signer;
    public_key = record {
      key = c.public_part key;
      key_id = kid;
      algorithm = "ES256";
      use_for = "sig";
    };
  }

  new-OnCurve :
      (key : c.Key) (settings : Issuer) (i : TokenIssuer c)
      → new c key settings ≡ some i
      → OnCurve i
  unfolding new
  new-OnCurve key settings i h = elim (Bool-cases (str_eq (c.curve key) "P-256")) [
    | inl same ↦
        digested ((eq_iff (c.curve key) "P-256").0 same) (c.thumbprint (c.public_part key)) refl
          (rw same at h)
    | inr elsewhere ↦ absurd (never (rw elsewhere at h))
  ]
    where
      nothing : Option (TokenIssuer c)
      nothing = none

      never : nothing ≢ some i
      never q = cc

      signed :
          (digest : List ℕ) (o : Option c.Signer)
          → c.thumbprint (c.public_part key) ≡ some digest
          → c.curve key ≡ "P-256"
          → c.new_signer key (hex (take 8 digest)) ≡ o
          → elim o [
            | none ↦ none
            | some signer ↦ some (made key (hex (take 8 digest)) settings signer)
          ]
            ≡ some i
          → OnCurve i
      signed digest none t on q k = absurd (cc)
      signed digest (some signer) t on q k = subst OnCurve (some_injective k) (record {
        key = key;
        curve = on;
        published = refl;
        digest = digest;
        digested = t;
        named = refl;
        signs = q;
      })

      digested :
          c.curve key ≡ "P-256"
          → (o : Option (List ℕ)) → c.thumbprint (c.public_part key) ≡ o
          → elim o [
            | none ↦ none
            | some digest ↦ elim (c.new_signer key (hex (take 8 digest))) [
              | none ↦ none
              | some signer ↦ some (made key (hex (take 8 digest)) settings signer)
            ]
          ]
            ≡ some i
          → OnCurve i
      digested on none t k = absurd (cc)
      digested on (some digest) t k =
          signed digest (c.new_signer key (hex (take 8 digest))) t on refl k

  not_refused :
      (i : TokenIssuer c) (refused : Bool) (o : Option (TokenIssuer c))
      → (if refused then none else o) ≡ some i
      → o ≡ some i
  not_refused i true o h = absurd (cc)
  not_refused i false o h = h

  new_from-OnCurve :
      (settings : Issuer) (parsed : Option (ParsedKey c.Key)) (i : TokenIssuer c)
      → new_from c settings parsed ≡ some i
      → OnCurve i
  unfolding new_from
  new_from-OnCurve settings none i h = absurd (cc)
  new_from-OnCurve settings (some other) i h = absurd (cc)
  new_from-OnCurve settings (some (ecdsa key)) i h =
      new-OnCurve key settings i
        (not_refused i (not (str_eq (c.curve key) "P-256")) (new c key settings) h)

  -- An issuer that Load gives signs with a key on the curve P-256, in whichever form the key
  -- file has it, and publishes the public part of that key, and under the ID that its signer
  -- uses: the first eight bytes, in hexadecimal digits, of the thumbprint of the public part.
  pub load-OnCurve :
      (key_file : String) (settings : Issuer) (i : TokenIssuer c)
      → load c key_file settings ≡ some i
      → OnCurve i
  unfolding load
  load-OnCurve key_file settings i h = read (c.read_file key_file) h
    where
      parsed :
          (o : Option c.Block)
          → elim o [ none ↦ none | some block ↦ new_from c settings (parsed_key c block) ] ≡ some i
          → OnCurve i
      parsed none k = absurd (cc)
      parsed (some block) k = new_from-OnCurve settings (parsed_key c block) i k

      read :
          (o : Option c.Data)
          → elim o [
            | none ↦ none
            | some content ↦ elim (c.decode_pem content) [
              | none ↦ none
              | some block ↦ new_from c settings (parsed_key c block)
            ]
          ]
            ≡ some i
          → OnCurve i
      read none k = absurd (cc)
      read (some content) k = parsed (c.decode_pem content) k
