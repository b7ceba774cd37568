-- ===== src/Api/Presenters/Admission.antt =====
-- internal/api/presenter.go: which requests PresenterVerifier.Verify accepts.
use mathlib.Core.Logic.Or
use mathlib.Core.Bool.{Bool-set}
use mathlib.Core.List.{Mem, mem-cons, not-mem-nil}
use nats_guest_access.Prelude.{
  String, ◌≡◌, ◌≢◌, refl, true, false, Bool-cases, inl, inr, Option, none, some, List, [], ◌∷◌,
  str_eq, eq_iff, has_prefix, trim_prefix, arith, ◌↔◌, sym, ◌∙◌, subst,
}
use nats_guest_access.Access.Names.{trim_space}
use nats_guest_access.Api.{HttpRequest, Web}
use nats_guest_access.Api.Presenters.{PresenterVerifier, in_group, checked_claims, verify}

in_group-Mem : (group : String) (gs : List String) → in_group group gs ≡ true → Mem group gs
unfolding in_group
in_group-Mem group [] h = absurd (cc)
in_group-Mem group (g ∷ gs) h = elim (Bool-cases (str_eq g group)) [
  | inl same ↦ mem-cons.1 (Or.inl (sym ((eq_iff g group).0 same)))
  | inr other ↦ mem-cons.1 (Or.inr (in_group-Mem group gs (ground arith)))
]

Mem-in_group : (group : String) (gs : List String) → Mem group gs → in_group group gs ≡ true
unfolding in_group
Mem-in_group group [] m = absurd (not-mem-nil m)
Mem-in_group group (g ∷ gs) m =
    let rest = λ (i : Mem group gs). Mem-in_group group gs i in
    Or.elim (Bool-set _ _) (mem-cons.0 m) (λ e. rw ((eq_iff g group).1 (sym e)) refl)
      (λ i. let h = rest i in ground arith)

-- The claims of a member of a group, with a subject.
pub record IsMember (group subject : String) (groups : List String) : Type 0 where
  pub named : subject ≢ ""
  pub member : Mem group groups

checked-IsMember :
    (web : Web) (group subject : String) (o : Option (String × List String))
    → checked_claims web group o ≡ some subject
    → (groups : List String) × (o ≡ some (subject, groups)) × IsMember group subject groups
unfolding checked_claims
checked-IsMember web group subject none h = absurd (cc)
checked-IsMember web group subject (some (s, groups)) h = elim (Bool-cases (str_eq s "")) [
  | inl empty ↦ absurd (ground arith)
  | inr full ↦ elim (Bool-cases (in_group group groups)) [
    | inl i ↦
        let same : s ≡ subject = ground arith in
        (
          groups,
          rw same refl,
          record {
            named = λ e. absurd (impossible e same full);
            member = in_group-Mem group groups i;
          },
        )
    | inr o ↦ absurd (ground arith)
  ]
]
  where
    impossible : subject ≡ "" → s ≡ subject → str_eq s "" ≡ false → ⊥
    impossible e same full = let t = (eq_iff s "").1 (same ∙ e) in cc

IsMember-checked :
    (web : Web) (group subject : String) (groups : List String)
    → IsMember group subject groups
    → checked_claims web group (some (subject, groups)) ≡ some subject
unfolding checked_claims
IsMember-checked web group subject groups h = elim (Bool-cases (str_eq subject "")) [
  | inl empty ↦ absurd (h.named ((eq_iff subject "").0 empty))
  | inr full ↦ rw (full, Mem-in_group group groups h.member) refl
]

module _ (web : Web) where
  -- A request with a bearer token of the verifier's client that names a subject and the group.
  pub record Admitted (v : PresenterVerifier web) (r : HttpRequest) (subject : String)
      : Type 0 where
    pub token : web.Token
    pub groups : List String
    pub bearer : has_prefix "Bearer " r.authorization ≡ true
    pub signed :
        web.verify_token v.provider v.client_id (trim_space (trim_prefix "Bearer " r.authorization))
        ≡ some token
    pub claims : web.token_claims token ≡ some (subject, groups)
    pub member : IsMember v.group subject groups

  admitted :
      (v : PresenterVerifier web) (r : HttpRequest) (subject : String)
      → has_prefix "Bearer " r.authorization ≡ true
      → (o : Option web.Token)
      → web.verify_token v.provider v.client_id (trim_space (trim_prefix "Bearer " r.authorization))
        ≡ o
      → elim o [ none ↦ none | some token ↦ checked_claims web v.group (web.token_claims token) ]
        ≡ some subject
      → Admitted v r subject
  admitted v r subject b none q h = absurd (cc)
  admitted v r subject b (some token) q h =
      let (groups, claims, member) =
        checked-IsMember web v.group subject (web.token_claims token) h in
      record {
        token = token;
        groups = groups;
        bearer = b;
        signed = q;
        claims = claims;
        member = member;
      }

  Admitted-verify :
      (v : PresenterVerifier web) (r : HttpRequest) (subject : String)
      → Admitted v r subject
      → verify web (some v) r ≡ some subject
  unfolding verify
  Admitted-verify v r subject a =
      rw a.bearer
        (rw a.signed (rw a.claims (IsMember-checked web v.group subject a.groups a.member)))

  -- Verify accepts a request as one of a subject exactly if there is a verifier, the
  -- authorization header is a bearer token that the provider accepts for the verifier's client,
  -- and the claims of that token name the subject, which is not empty, and have the verifier's
  -- group among the groups.
  pub verify-Admitted :
      (o : Option (PresenterVerifier web)) (r : HttpRequest) (subject : String)
      → (verify web o r ≡ some subject)
        ↔ ((v : PresenterVerifier web) × (o ≡ some v) × Admitted v r subject)
  unfolding verify
  verify-Admitted none r subject = (λ h. absurd (cc), λ x. absurd (none_some x.1))
    where
      none_some : {v : PresenterVerifier web} → none ≡ some v → ⊥
      none_some e = cc
  verify-Admitted (some v) r subject = (there, back)
    where
      there :
          verify web (some v) r ≡ some subject
          → (v' : PresenterVerifier web) × (some v ≡ some v') × Admitted v' r subject
      there h = elim (Bool-cases (has_prefix "Bearer " r.authorization)) [
        | inl b ↦ (v, refl, admitted v r subject b _ refl (rw b at h))
        | inr other ↦ absurd (refused (rw other at h))
      ]
        where
          refused : none ≡ some subject → ⊥
          refused e = cc

      back :
          ((v' : PresenterVerifier web) × (some v ≡ some v') × Admitted v' r subject)
          → verify web (some v) r ≡ some subject
      back (v', e, a) =
          subst (λ o. verify web o r ≡ some subject) (sym e) (Admitted-verify v' r subject a)
