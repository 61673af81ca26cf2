-- ===== src/Auth/Tenancy/Laws.antt =====
-- Meetings and the tenants that reach them.
use second_capture.Base.{
  ◌≡◌, ◌↔◌, sym, ◌∙◌, inl, inr, String, str_eq, eq_iff, eq_refl, true, false, Option, none, some,
  arith,
}
use second_capture.Base.Text.{is_empty}
use second_capture.Base.Dict.{lookup, lookup-insert, lookup-insert_self}
use second_capture.Base.Errors.{ok, Outcome-cases}
use second_capture.Config.{AuthSettings}
use second_capture.Auth.Claims.{Claim, null, text, many, scalar, ClaimSet}
use second_capture.Auth.Security.{AuthContext}
use second_capture.Auth.Tenancy.{
  tenant_context_key, resolve_tenant_id, tenant_or_refuse, is_text, put_tenant, check_tenant,
  apply_tenant_to_context, enforce_meeting_access,
}

module _ (s : AuthSettings) (on : s.tenant_enforcement_enabled ≡ true) where
  tenant_found :
      (ctx : AuthContext) (t : String)
      → tenant_or_refuse s ctx ≡ ok t
      → (resolve_tenant_id s ctx ≡ some t) × (is_empty t ≡ false)
  unfolding tenant_or_refuse
  tenant_found ctx t h = ground arith

  tenant_allowed :
      (ctx : AuthContext) (t : String)
      → resolve_tenant_id s ctx ≡ some t
      → is_empty t ≡ false
      → tenant_or_refuse s ctx ≡ ok t
  unfolding tenant_or_refuse
  tenant_allowed ctx t resolved filled = ground arith

  -- With enforcement on, a meeting that is created under a context holds the caller's tenant, which
  -- is not empty and comes from its claims; every other entry of the context stays as it was.
  apply_tenant_sets :
      (ctx : AuthContext) (context out : ClaimSet)
      → apply_tenant_to_context s ctx context ≡ ok out
      → (t : String) × (resolve_tenant_id s ctx ≡ some t)
        × (is_empty t ≡ false)
        × (lookup (tenant_context_key s) out ≡ some (text t))
        × ((k : String) → str_eq (tenant_context_key s) k ≡ false → lookup k out ≡ lookup k context)
  unfolding apply_tenant_to_context put_tenant
  apply_tenant_sets ctx context out h = elim (Outcome-cases (tenant_or_refuse s ctx)) [
    | inl (t, found) ↦ (
      t,
      (tenant_found ctx t found).0,
      (tenant_found ctx t found).1,
      ground (arith, lookup-insert_self (tenant_context_key s) (text t) context),
      λ k other. ground (arith, lookup-insert (tenant_context_key s) k (text t) context),
    )
    | inr (x, refused) ↦ absurd (ground arith)
  ]

  is_text_eq : (t : String) (o : Option Claim) → is_text t o ≡ true → o ≡ some (text t)
  is_text_eq t none h = cc
  is_text_eq t (some null) h = cc
  is_text_eq t (some (text u)) h = rw ((eq_iff u t).0 h)
  is_text_eq t (some (many _ _)) h = cc
  is_text_eq t (some (scalar _ _)) h = cc

  -- A caller may reach a meeting exactly if the caller has a tenant that is not empty and the
  -- meeting's context names it.
  pub enforce_meeting_access_iff :
      (ctx : AuthContext) (context : ClaimSet)
      → (enforce_meeting_access s ctx context ≡ ok tt) ↔ (
          (t : String) × (resolve_tenant_id s ctx ≡ some t)
          × (is_empty t ≡ false)
          × (lookup (tenant_context_key s) context ≡ some (text t)))
  unfolding enforce_meeting_access check_tenant
  enforce_meeting_access_iff ctx context = (
    (λ h. elim (Outcome-cases (tenant_or_refuse s ctx)) [
      | inl (t, found) ↦ (
        t,
        (tenant_found ctx t found).0,
        (tenant_found ctx t found).1,
        is_text_eq t (lookup (tenant_context_key s) context) (ground arith),
      )
      | inr (x, refused) ↦ absurd (ground arith)
    ]),
    (λ (t, resolved, filled, held).
        ground (arith, eq_refl t, tenant_allowed ctx t resolved filled)),
  )

  -- What one caller creates, another caller may reach only with the same tenant.
  pub tenants_are_apart :
      (creator reader : AuthContext) (context out : ClaimSet)
      → apply_tenant_to_context s creator context ≡ ok out
      → enforce_meeting_access s reader out ≡ ok tt
      → resolve_tenant_id s creator ≡ resolve_tenant_id s reader
  tenants_are_apart creator reader context out made reached =
      let set = apply_tenant_sets creator context out made in
      let read = (enforce_meeting_access_iff reader out).0 reached in
      let same : text set.0 ≡ text read.0 = cc (set.3, read.3) in set.1 ∙ cc same ∙ sym read.1
