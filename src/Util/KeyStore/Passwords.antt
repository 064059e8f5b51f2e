-- ===== src/Util/KeyStore/Passwords.antt =====
-- Where the password of the key store comes from (ReadPassword of server/util.go).
use mathlib.Core.Path.{subst}
use c_bridge_node.Base.{
  ℕ, zero, suc, ◌≡◌, ◌≢◌, refl, ap, ap₂, ◌∙◌, sym, ==_iff, String, Option, none, some, List, [],
  ◌∷◌, ◌++◌, ◌==◌, if◌then◌else◌, ◌⊎◌, inl, inr, Bool-cases, arith,
}
use c_bridge_node.Base.Lists.{head?}
use c_bridge_node.Base.Maps.{string_eq}
use c_bridge_node.World.{Fault, Result, ok, err}
use c_bridge_node.Util.KeyStore.{
  Host, newline, drop_newlines, drop_last_newlines, keep_unless_last, trim_newlines, and_then,
  password_from_stdin, unless_refused, get_address_from_keystore, read_password,
}

abbrev newlines : ℕ → List ℕ
newlines zero = []
newlines (suc n) = newline ∷ newlines n

abbrev last? : List ℕ → Option ℕ
last? [] = none
last? (c ∷ []) = some c
last? (c ∷ d ∷ s) = last? (d ∷ s)

-- `t` is `s` without the newlines at its ends, and has none there.
pub record IsTrimOf (s t : List ℕ) : Type 0 where
  pub before : ℕ
  pub after : ℕ
  pub whole : s ≡ newlines before ++ (t ++ newlines after)
  pub no_first : head? t ≢ some newline
  pub no_last : last? t ≢ some newline

record IsLeftTrimOf (s t : List ℕ) : Type 0 where
  before : ℕ
  whole : s ≡ newlines before ++ t
  no_first : head? t ≢ some newline

drop_newlines-IsLeftTrimOf : (s : List ℕ) → IsLeftTrimOf s (drop_newlines s)
drop_newlines-IsLeftTrimOf [] = record { before = 0; whole = refl; no_first = λ e. ground arith }
drop_newlines-IsLeftTrimOf (c ∷ s) = elim (Bool-cases (c == newline)) [
  | inl e ↦
      let h = drop_newlines-IsLeftTrimOf s in
      rw e (record {
        before = suc h.before;
        whole = ap₂ ◌∷◌ ((==_iff c newline).0 e) h.whole;
        no_first = h.no_first;
      })
  | inr e ↦ rw e (record { before = 0; whole = refl; no_first = λ same. ground arith })
]

record IsRightTrimOf (s t : List ℕ) : Type 0 where
  after : ℕ
  whole : s ≡ t ++ newlines after
  no_last : last? t ≢ some newline
  first : (head? s ≢ some newline) → head? t ≢ some newline

keep_unless_last-IsRightTrimOf :
    (c : ℕ) (s t : List ℕ) → IsRightTrimOf s t → IsRightTrimOf (c ∷ s) (keep_unless_last c t)
keep_unless_last-IsRightTrimOf c s [] h = elim (Bool-cases (c == newline)) [
  | inl e ↦ rw e (record {
    after = suc h.after;
    whole = ap₂ ◌∷◌ ((==_iff c newline).0 e) h.whole;
    no_last = λ same. ground arith;
    first = λ other same. ground arith;
  })
  | inr e ↦ rw e (record {
    after = h.after;
    whole = ap (λ r. c ∷ r) h.whole;
    no_last = λ same. ground arith;
    first = λ other. other;
  })
]
keep_unless_last-IsRightTrimOf c s (d ∷ t) h = record {
  after = h.after;
  whole = ap (λ r. c ∷ r) h.whole;
  no_last = h.no_last;
  first = λ other. other;
}

drop_last_newlines-IsRightTrimOf : (s : List ℕ) → IsRightTrimOf s (drop_last_newlines s)
drop_last_newlines-IsRightTrimOf [] = record {
  after = 0;
  whole = refl;
  no_last = λ e. ground arith;
  first = λ other. other;
}
drop_last_newlines-IsRightTrimOf (c ∷ s) =
    keep_unless_last-IsRightTrimOf c s (drop_last_newlines s) (drop_last_newlines-IsRightTrimOf s)

trim_newlines-IsTrimOf : (s : List ℕ) → IsTrimOf s (trim_newlines s)
unfolding trim_newlines
trim_newlines-IsTrimOf s =
    let left = drop_newlines-IsLeftTrimOf s in
    let right = drop_last_newlines-IsRightTrimOf (drop_newlines s) in
    record {
      before = left.before;
      after = right.after;
      whole = left.whole ∙ ap (λ t. newlines left.before ++ t) right.whole;
      no_first = right.first left.no_first;
      no_last = right.no_last;
    }

-- A password that was read has the key store's JSON in order. With a path it is the file's content
-- without the newlines at its ends; with none, it decrypts the key store.
pub record IsPasswordOf (host : Host) (ks_bytes : List ℕ) (pwd_dir : String) (p : List ℕ)
    : Type 0 where
  pub address : List ℕ
  pub parsed : host.address_in_json ks_bytes ≡ ok address
  pub source :
      (pwd_dir ≢ "")
        × ((content : List ℕ) × (host.read_file pwd_dir ≡ ok content) × IsTrimOf content p)
      ⊎ (pwd_dir ≡ "") × (host.decrypt_key ks_bytes p ≡ none)

pub and_then-ok :
    {A B : Type 0} (r : Result A) (f : A → Result B) (b : B)
    → and_then r f ≡ ok b
    → (a : A) × (r ≡ ok a) × (f a ≡ ok b)
unfolding and_then
and_then-ok (ok a) f b h = (a, refl, h)
and_then-ok (err e) f b h = absurd (ground arith)

unless_refused-ok :
    (host : Host) (refused : Option Fault) (password p : List ℕ)
    → unless_refused host refused password ≡ ok p
    → (refused ≡ none) × (password ≡ p)
unfolding unless_refused
unless_refused-ok host none password p h = (refl, cc)
unless_refused-ok host (some e) password p h = absurd (ground arith)

ok_inj : {a b : List ℕ} → ◌≡◌ {A = Result (List ℕ)} (ok a) (ok b) → a ≡ b
ok_inj e = cc

pub read_password-IsPasswordOf :
    (host : Host) (ks_bytes : List ℕ) (pwd_dir : String) (p : List ℕ)
    → read_password host ks_bytes pwd_dir ≡ ok p
    → IsPasswordOf host ks_bytes pwd_dir p
unfolding read_password get_address_from_keystore
read_password-IsPasswordOf host ks_bytes pwd_dir p h =
    let (address, parsed, rest) = and_then-ok (host.address_in_json ks_bytes) _ p h in
    record { address = address; parsed = parsed; source = source_of rest }
  where
    source_of :
        (if string_eq.beq pwd_dir ""
            then and_then
                (password_from_stdin host)
                (λ password. unless_refused host (host.decrypt_key ks_bytes password) password)
            else and_then (host.read_file pwd_dir) (λ pwd_bytes. ok (trim_newlines pwd_bytes)))
          ≡ ok p
        → (pwd_dir ≢ "")
            × ((content : List ℕ) × (host.read_file pwd_dir ≡ ok content) × IsTrimOf content p)
          ⊎ (pwd_dir ≡ "") × (host.decrypt_key ks_bytes p ≡ none)
    source_of rest = elim (Bool-cases (string_eq.beq pwd_dir "")) [
      | inl e ↦
          let (password, asked, tried) =
            and_then-ok (password_from_stdin host) _ p (rw e at rest) in
          let (accepted, same) = unless_refused-ok host _ password p tried in
          inr (
            (string_eq.beq_iff pwd_dir "").0 e,
            ap (host.decrypt_key ks_bytes) (sym same) ∙ accepted,
          )
      | inr e ↦
          let (content, found, same) = and_then-ok (host.read_file pwd_dir) _ p (rw e at rest) in
          inl (
            λ empty. ground (arith, (string_eq.beq_iff pwd_dir "").1 empty),
            (
              content,
              found,
              subst (IsTrimOf content) (ok_inj same) (trim_newlines-IsTrimOf content),
            ),
          )
    ]
