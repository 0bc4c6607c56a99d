-- ===== src/Router/Attach/Laws.antt =====
-- The custom domains that are accepted.
use instacloud_oss.Base.{
  inl, inr, refl, sym, ap, ◌∙◌, ◌≡◌, ◌≢◌, ◌⊎◌, subst, true, false, List, [], ◌∷◌, ◌++◌, some,
  contains, nat_instance, list_instance, arith, list_same_iff, Bool-cases, ◌↔◌, ◌==◌,
}
use instacloud_oss.Router.Table.{Text}
use instacloud_oss.Router.Table.Names.{dot, is_hostname, split_dots}
use instacloud_oss.Router.Attach.{
  strip_dot, trim, is_ip_literal, is_under, canonical, check_hostname, normalize_hostname, accepted,
}
use instacloud_oss.Router.Attach.Shape.{IsDomain, split_dots-IsDomain, is_under-foreign}
use instacloud_oss.Router.Attach.Accepts.{IsCore-trim, strip_dot-kept}
use instacloud_oss.Router.Attach.Passes.{
  IsDomain-labels, IsDomain-dot, IsDomain-hostname, IsDomain-no_address, foreign-is_under,
}
use instacloud_oss.Router.Attach.Trim.{IsCore, trim-IsCore, strip_dot-cut}

module _ (to_lower : Text → Text) where
  -- Every condition under which a custom domain is accepted, and what is kept of it.
  pub record IsAttachable (domain raw h : Text) : Type 0 where
    pub core : Text
    pub between : IsCore raw core
    pub given : core ≢ []
    pub kept : (to_lower core ≡ h) ⊎ (to_lower core ≡ h ++ dot ∷ [])
    pub labels : List Text
    pub named : IsDomain h labels
    pub not_own : h ≢ domain
    pub not_under : ¬ ((sub : Text) × (h ≡ sub ++ dot ∷ domain))

  normalize_hostname-accepted :
      (domain raw h : Text)
      → normalize_hostname to_lower domain (some raw) ≡ accepted h
      → (canonical to_lower raw ≡ h)
        × (trim raw ≢ [])
        × (is_hostname (canonical to_lower raw) ≡ true)
        × (contains dot (canonical to_lower raw) ≡ true)
        × (is_ip_literal (canonical to_lower raw) ≡ false)
        × (is_under domain (canonical to_lower raw) ≡ false)
  unfolding normalize_hostname check_hostname
  normalize_hostname-accepted domain raw h e = ground (arith, e, list_same_iff (trim raw) [])

  accepted-IsAttachable :
      (domain raw h : Text)
      → normalize_hostname to_lower domain (some raw) ≡ accepted h
      → IsAttachable domain raw h
  accepted-IsAttachable domain raw h e =
      let (kept, given, shaped, dotted, address, own) =
        normalize_hostname-accepted domain raw h e in
      let (not_own, not_under) =
        is_under-foreign domain h (subst (λ x. is_under domain x ≡ false) kept own) in
      record {
        core = trim raw;
        between = trim-IsCore raw;
        given = given;
        kept =
            subst (λ x. (to_lower (trim raw) ≡ x) ⊎ (to_lower (trim raw) ≡ x ++ dot ∷ [])) kept
              (strip_dot-cut (to_lower (trim raw)));
        labels = split_dots h;
        named =
            subst (λ x. IsDomain x (split_dots x)) kept
              (split_dots-IsDomain (canonical to_lower raw) shaped dotted address);
        not_own = not_own;
        not_under = not_under;
      }

  IsAttachable-accepted :
      (domain raw h : Text)
      → IsAttachable domain raw h
      → normalize_hostname to_lower domain (some raw) ≡ accepted h
  unfolding normalize_hostname check_hostname
  IsAttachable-accepted domain raw h k =
      let core = IsCore-trim raw k.core k.given k.between in
      let labels = IsDomain-labels h k.labels k.named in
      let lowered = ap to_lower core in
      let same = ap strip_dot lowered ∙ strip_dot-kept (to_lower k.core) h labels k.kept in
      let given = λ (e : trim raw ≡ []). k.given (sym core ∙ e) in
      let shaped = IsDomain-hostname h k.labels k.named in
      let dotted = IsDomain-dot h k.labels k.named in
      let address = IsDomain-no_address h k.labels k.named in
      let own = foreign-is_under domain h k.not_own k.not_under in
      elim (Bool-cases (trim raw == [])) [
        | inl e ↦ absurd (given ((list_same_iff (trim raw) []).0 e))
        | inr e ↦ rw (e, same, shaped, dotted, address, own) refl
      ]

  -- A custom domain is accepted, and kept in a form, exactly in this case. What stands between the
  -- white space at both ends of the text is not empty; its lower case, without one last dot if there
  -- is one, is the form that is kept. That is two labels or more with dots between them, at most 253
  -- characters in all; each label has 1 to 63 small letters, digits and dashes, and neither begins
  -- nor ends with a dash; they are not four of one to three digits each. It is not the domain that
  -- the daemon itself serves, and does not end with a dot and that domain.
  pub normalize_hostname-IsAttachable :
      (domain raw h : Text)
      → (normalize_hostname to_lower domain (some raw) ≡ accepted h) ↔ IsAttachable domain raw h
  normalize_hostname-IsAttachable domain raw h =
      (accepted-IsAttachable domain raw h, IsAttachable-accepted domain raw h)
