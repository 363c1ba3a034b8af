-- ===== src/Firewall/Base/Normal.antt =====
-- The normal form that `normalize_local_ips` gives.
use net_father.Prelude.{
  ℕ, ◌≡◌, refl, sym, ap, ◌∙◌, subst, true, false, ◌||◌, some, List, [], ◌∷◌, All, In, IsUnique,
  All-dedupe, dedupe, dedupe-IsUnique, dedupe_of_IsUnique, In-dedupe, text_eq_instance, Text, ok,
  err, >>=-eq-ok, ok_injective, Bool-cases, Option-cases, value_error, inl, inr, arith, ◌↔◌,
}
use net_father.Prelude.Sorting.{
  IsSorted, sort-IsSorted, sort_of_IsSorted, sort-IsUnique, All-sort, In-sort, sort-In,
}
use net_father.Prelude.Strings.{before_char, has_char}
use net_father.Net.Addresses.{IpAddress, IpLibrary}
use net_father.Firewall.Base.{local_ip, local_ips, ip_before, normalize_local_ips}

before_char-has_char : (c : ℕ) (t : Text) → has_char c (before_char c t) ≡ false
unfolding before_char has_char
before_char-has_char c [] = refl
before_char-has_char c (d ∷ t) = ground (arith, before_char-has_char c t)

before_char_of : (c : ℕ) (t : Text) → has_char c t ≡ false → before_char c t ≡ t
unfolding before_char has_char
before_char_of c [] h = refl
before_char_of c (d ∷ t) h = ground (arith, before_char_of c t)

module _ (lib : IpLibrary) where
  open lib use {ip_address, str, is_private, is_link_local, read_back, no_scope}

  -- The text that is written for a private or link-local address without a scope.
  pub record IsLocal (t : Text) : Type 0 where
    pub address : IpAddress
    pub read : ip_address t ≡ some address
    pub local : (is_private address || is_link_local address) ≡ true
    pub written : str address ≡ t
    pub unscoped : has_char b'%' t ≡ false

  local_ip-IsLocal : (v : Text) {t : Text} → local_ip lib v ≡ ok t → IsLocal t
  unfolding local_ip
  local_ip-IsLocal v {t} h = elim (Option-cases (ip_address (before_char b'%' v))) [
    | inl e ↦ absurd (failed (rw e at h))
    | inr (a, e) ↦ elim (Bool-cases (is_private a || is_link_local a)) [
      | inr l ↦ absurd (failed (rw (e, l) at h))
      | inl l ↦ subst IsLocal (ok_injective (rw (e, l) at h)) (record {
        address = a;
        read = read_back _ a e;
        local = l;
        written = refl;
        unscoped = no_scope _ a (before_char-has_char b'%' v) e;
      })
    ]
  ]
    where
      failed : err value_error ≡ ok t → ⊥
      failed e = cc

  local_ip_of_IsLocal : (t : Text) → IsLocal t → local_ip lib t ≡ ok t
  unfolding local_ip
  local_ip_of_IsLocal t l = rw (before_char_of b'%' t l.unscoped, l.read, l.local) (ap ok l.written)

  local_ips-IsLocal : (vs : List Text) {ts : List Text} → local_ips lib vs ≡ ok ts → All IsLocal ts
  unfolding local_ips
  local_ips-IsLocal [] h = subst (All IsLocal) (ok_injective h) tt
  local_ips-IsLocal (v ∷ vs) h =
      let (t, e, h₁) = >>=-eq-ok (local_ip lib v) _ h in
      let (ts, f, h₂) = >>=-eq-ok (local_ips lib vs) _ h₁ in
      subst (All IsLocal) (ok_injective h₂) (local_ip-IsLocal v e, local_ips-IsLocal vs f)

  local_ips_of_IsLocal : (ts : List Text) → All IsLocal ts → local_ips lib ts ≡ ok ts
  unfolding local_ips
  local_ips_of_IsLocal [] h = refl
  local_ips_of_IsLocal (t ∷ ts) h = rw (local_ip_of_IsLocal t h.0, local_ips_of_IsLocal ts h.1) refl

  ip_before-asym : (s t : Text) → ip_before lib s t ≡ true → ip_before lib t s ≡ false
  unfolding ip_before
  ip_before-asym s t h = ground arith

  ip_before-skip :
      (s t u : Text)
      → ip_before lib u t ≡ false
      → ip_before lib t s ≡ false
      → ip_before lib u s ≡ false
  unfolding ip_before
  ip_before-skip s t u h k = ground arith

  -- A normal list: texts of local addresses, sorted by their keys, without repeats.
  pub record IsNormal (ts : List Text) : Type 0 where
    pub all_local : All IsLocal ts
    pub sorted : IsSorted (ip_before lib) ts
    pub unique : IsUnique ts

  normalize_local_ips-IsNormal :
      (vs : List Text) {ts : List Text} → normalize_local_ips lib vs ≡ ok ts → IsNormal ts
  unfolding normalize_local_ips
  normalize_local_ips-IsNormal vs {ts} h =
      let (ips, e, k) = >>=-eq-ok (local_ips lib vs) _ h in
      subst IsNormal (ok_injective k) (record {
        all_local =
            All-sort (ip_before lib) IsLocal _ (All-dedupe IsLocal ips (local_ips-IsLocal vs e));
        sorted = sort-IsSorted (ip_before lib) ip_before-asym ip_before-skip (dedupe ips);
        unique = sort-IsUnique (ip_before lib) (dedupe ips) (dedupe-IsUnique ips);
      })

  normalize_local_ips_of_IsNormal :
      (ts : List Text) → IsNormal ts → normalize_local_ips lib ts ≡ ok ts
  unfolding normalize_local_ips
  normalize_local_ips_of_IsNormal ts n =
      rw (local_ips_of_IsLocal ts n.all_local, dedupe_of_IsUnique ts n.unique)
        (ap ok (sort_of_IsSorted (ip_before lib) ts n.sorted))

  -- What the normalization accepts it leaves as it is the second time.
  pub normalize_local_ips_idem :
      (vs : List Text) {ts : List Text}
      → normalize_local_ips lib vs ≡ ok ts
      → normalize_local_ips lib ts ≡ ok ts
  normalize_local_ips_idem vs {ts} h =
      normalize_local_ips_of_IsNormal ts (normalize_local_ips-IsNormal vs h)

  abbrev pub IsWritten : List Text → Text → Type 0
  IsWritten vs t = (v : Text) × In v vs × (local_ip lib v ≡ ok t)

  In-local_ips :
      (vs : List Text) {ts : List Text}
      → local_ips lib vs ≡ ok ts
      → (t : Text) → In t ts ↔ IsWritten vs t
  unfolding local_ips
  In-local_ips [] h t =
      subst (λ ts. In t ts ↔ IsWritten [] t) (ok_injective h)
        ((λ m. absurd m), λ (v, m, e). absurd m)
  In-local_ips (v ∷ vs) h t =
      let (u, e, h₁) = >>=-eq-ok (local_ip lib v) _ h in
      let (us, f, h₂) = >>=-eq-ok (local_ips lib vs) _ h₁ in
      subst (λ ts. In t ts ↔ IsWritten (v ∷ vs) t) (ok_injective h₂)
        (
          (λ m. elim m [
            | inl i ↦ (v, inl refl, e ∙ ap ok i)
            | inr r ↦ let (w, i, k) = (In-local_ips vs f t).0 r in (w, inr i, k)
          ]),
          λ (w, m, k). elim m [
            | inl i ↦ inl (ok_injective (sym e ∙ ap (local_ip lib) i ∙ k))
            | inr r ↦ inr ((In-local_ips vs f t).1 (w, r, k))
          ],
        )

  -- The normalized list holds the normal texts of the given addresses and no other, sorted by
  -- version and number, without repeats, and each the text of a private or link-local address.
  pub normalize_local_ips-IsNormal-In :
      (vs : List Text) {ts : List Text}
      → normalize_local_ips lib vs ≡ ok ts
      → IsNormal ts × ((t : Text) → In t ts ↔ IsWritten vs t)
  unfolding normalize_local_ips
  normalize_local_ips-IsNormal-In vs {ts} h =
      let (ips, e, k) = >>=-eq-ok (local_ips lib vs) _ h in
      (
        normalize_local_ips-IsNormal vs h,
        subst (λ ts. (t : Text) → In t ts ↔ IsWritten vs t) (ok_injective k)
            (λ t. (
              (λ m. (In-local_ips vs e t).0 ((In-dedupe t ips).0 (In-sort (ip_before lib) t _ m))),
              λ w. sort-In (ip_before lib) t _ ((In-dedupe t ips).1 ((In-local_ips vs e t).1 w)),
            )),
      )
