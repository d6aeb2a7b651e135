-- ===== src/Support/Users/Bundles.antt =====
-- The bundle of certificates holds the router's.
use text.Mathlib.TextLemmas.{cons-append, nil-append, append-nil, append_assoc}
use text.Mathlib.TextPositions.{eq_refl}
use opendatahub_tests.Shared.{
  String, true, some, join, in_text, starts_with, ◌≡◌, refl, sym, ap, ◌∙◌, starts_with-append,
  arith, Bool-cases, inl, inr,
}
use opendatahub_tests.Support.Users.{create_ca_bundle_with_router_cert}

in_text_self : (t : String) → in_text t t ≡ true
unfolding in_text
in_text_self String.[] = eq_refl ""
in_text_self (String.◌∷◌ c s) =
    let whole : starts_with (String.◌∷◌ c s) (String.◌∷◌ c s) ≡ true =
      ap (λ v. starts_with v (String.◌∷◌ c s)) (sym (append-nil (String.◌∷◌ c s)))
      ∙ starts_with-append (String.◌∷◌ c s) "" in
    rw whole refl

in_text-behind : (s t : String) → in_text t (join s t) ≡ true
unfolding in_text
in_text-behind String.[] t = rw (nil-append t) (in_text_self t)
in_text-behind (String.◌∷◌ c s) t = rw (cons-append c s t) (ground (arith, in_text-behind s t))

-- The bundle holds the router's certificate, and putting the certificate into it again changes nothing.
create_ca_bundle_with_router_cert_idem :
    (content router_ca : String)
    → let bundle = create_ca_bundle_with_router_cert content (some router_ca) in
      (in_text router_ca bundle ≡ true)
      × (create_ca_bundle_with_router_cert bundle (some router_ca) ≡ bundle)
unfolding create_ca_bundle_with_router_cert
create_ca_bundle_with_router_cert_idem content router_ca =
    let appended : in_text router_ca (join content (join "\n" router_ca)) ≡ true =
      rw⁻¹ (append_assoc content "\n" router_ca) (in_text-behind (join content "\n") router_ca) in
    elim (Bool-cases (in_text router_ca content)) [
      | inl e ↦ (rw (e, e) refl, rw (e, e) refl)
      | inr e ↦ (rw (e, appended) refl, rw (e, appended) refl)
    ]
