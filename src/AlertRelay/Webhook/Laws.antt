-- ===== src/AlertRelay/Webhook/Laws.antt =====
-- What the answer to a webhook says of the forwarding.
use mathlib.Core.List.{append-nil, append_assoc}
use second_capture.Base.{
  ℕ, ◌+◌, ◌≡◌, ◌≢◌, ◌≤◌, inl, inr, sym, subst, refl, String, ◌<>◌, eq_iff, Bool, true, false,
  Option-cases, Bool-cases, none, some, List, [], ◌∷◌, ◌++◌, length, ◌∙◌, suc, arith, if◌then◌else◌,
}
use second_capture.Base.Text.{truncate}
use second_capture.AlertRelay.{Environ, channel_name, target_url, shadow_url, fail_on_error}
use second_capture.AlertRelay.Forward.{Http, forwarded, Relay, forward}
use second_capture.AlertRelay.Webhook.{
  Body, Wrap, payload_of, Answer, answered, bad_gateway, targets, forward_one, forward_all,
  conclude, webhook,
}

-- There are at most two addresses, and two addresses differ.
targets_apart :
    (target shadow : String)
    → (length (targets target shadow) ≤ 2)
      × ((x y : String × String) (rest : List (String × String))
          → targets target shadow ≡ x ∷ y ∷ rest
          → x.1 ≢ y.1)
unfolding targets
targets_apart target shadow =
    (ground arith, λ x y rest e same. ground (arith, eq_iff shadow target))

-- The line of the detail for an address that the webhook was not forwarded to.
abbrev pub error_line : String → String → String → String
error_line kind url e = kind <> (":" <> (url <> (":" <> truncate 200 e)))

module _ (h : Http) (env : Environ) (payload : h.Json) (ch : String) where
  -- The relay after the webhook has been forwarded to an address, and after the count of that.
  abbrev pub after_forward : String → String → Bool → Relay h.Net → Relay h.Net
  after_forward kind url good r =
      let r' = (forward h env url payload ch kind r).1 in
      record r' { metrics = forwarded ch kind good ∷ r'.metrics }

  -- The webhook is forwarded to the addresses in their order, each once, with the number of those
  -- where `forward` ends with no error, the lines of the others, and the relay before and after.
  pub data Sent
      : List (String × String) → ℕ → List String → Relay h.Net → Relay h.Net → Type 0 where
    ended : {r : Relay h.Net} → Sent [] 0 [] r r
    good :
        {kind url : String} {rest : List (String × String)} {n : ℕ} {errors : List String}
        {r u : Relay h.Net}
        → (forward h env url payload ch kind r).0 ≡ none
        → Sent rest n errors (after_forward kind url true r) u
        → Sent ((kind, url) ∷ rest) (suc n) errors r u
    bad :
        {kind url e : String} {rest : List (String × String)} {n : ℕ} {errors : List String}
        {r u : Relay h.Net}
        → (forward h env url payload ch kind r).0 ≡ some e
        → Sent rest n errors (after_forward kind url false r) u
        → Sent ((kind, url) ∷ rest) n (error_line kind url e ∷ errors) r u

  one_good :
      (kind url : String) (done : ℕ) (errors : List String) (r : Relay h.Net)
      → (forward h env url payload ch kind r).0 ≡ none
      → forward_one h env payload ch kind url done errors r
        ≡ ((done + 1, errors), after_forward kind url true r)
  unfolding forward_one
  one_good kind url done errors r fine = ground arith

  one_bad :
      (kind url e : String) (done : ℕ) (errors : List String) (r : Relay h.Net)
      → (forward h env url payload ch kind r).0 ≡ some e
      → forward_one h env payload ch kind url done errors r
        ≡ ((done, errors ++ (error_line kind url e ∷ [])), after_forward kind url false r)
  unfolding forward_one
  one_bad kind url e done errors r failed = ground arith

  -- The loop from `done` and `errors` on sends to each address, and adds to both.
  abbrev Adds :
      List (String × String)
      → ℕ
      → List String
      → Relay h.Net
      → (ℕ × List String) × Relay h.Net
      → Type 0
  Adds to done errors r out =
      (n : ℕ) × (es : List String) × Sent to n es r out.1
      × (out.0.0 ≡ done + n)
      × (out.0.1 ≡ errors ++ es)

  forward_all-Adds :
      (to : List (String × String)) (done : ℕ) (errors : List String) (r : Relay h.Net)
      → Adds to done errors r (forward_all h env payload ch to done errors r)
  unfolding forward_all
  forward_all-Adds [] done errors r = (0, [], ended, omega arith, sym (append-nil errors))
  forward_all-Adds ((kind, url) ∷ rest) done errors r =
      elim (Option-cases (forward h env url payload ch kind r).0) [
        | inl fine ↦
            let u = after_forward kind url true r in
            let a = forward_all-Adds rest (done + 1) errors u in
            subst
              (λ (o : (ℕ × List String) × Relay h.Net).
                Adds ((kind, url) ∷ rest) done errors r
                  (forward_all h env payload ch rest o.0.0 o.0.1 o.1))
              (sym (one_good kind url done errors r fine))
              (suc a.0, a.1, good fine a.2, omega (arith, a.3), a.4)
        | inr (e, failed) ↦
            let u = after_forward kind url false r in
            let line = error_line kind url e in
            let a = forward_all-Adds rest done (errors ++ (line ∷ [])) u in
            subst
              (λ (o : (ℕ × List String) × Relay h.Net).
                Adds ((kind, url) ∷ rest) done errors r
                  (forward_all h env payload ch rest o.0.0 o.0.1 o.1))
              (sym (one_bad kind url e done errors r failed))
              (a.0, line ∷ a.1, bad failed a.2, a.3, a.4 ∙ append_assoc errors (line ∷ []) a.1)
      ]

  -- The answer for a list of addresses counts those that the webhook was forwarded to, and the
  -- others as errors; the 502 is for errors only, and only where errors are to fail the webhook.
  abbrev pub Accounts : List (String × String) → Relay h.Net → Answer → Relay h.Net → Type 0
  Accounts to r (answered c n m) u =
      (errors : List String) × (c ≡ ch)
      × Sent to n errors r u
      × (m ≡ length errors)
      × (fail_on_error env ≡ true → m ≡ 0)
  Accounts to r (bad_gateway c n errors) u =
      (c ≡ ch) × Sent to n errors r u × (fail_on_error env ≡ true) × (1 ≤ length errors)

  conclude-Accounts :
      (to : List (String × String)) (n : ℕ) (errors : List String) (r u : Relay h.Net)
      → Sent to n errors r u
      → Accounts to r (conclude h env ch n errors) u
  unfolding conclude
  conclude-Accounts to n [] r u sent = ([], refl, sent, refl, λ _. refl)
  conclude-Accounts to n (x ∷ xs) r u sent =
      let by_setting : Bool → Answer =
        λ b. if b then bad_gateway ch n (x ∷ xs) else answered ch n (length (x ∷ xs)) in
      elim (Bool-cases (fail_on_error env)) [
        | inl strict ↦
            subst (λ b. Accounts to r (by_setting b) u) (sym strict)
              (refl, sent, strict, omega arith)
        | inr lax ↦
            subst (λ b. Accounts to r (by_setting b) u) (sym lax)
              (x ∷ xs, refl, sent, refl, λ strict. cc (strict, lax))
      ]

  all-Accounts :
      (to : List (String × String)) (r : Relay h.Net)
      → let out = forward_all h env payload ch to 0 [] r in
        Accounts to r (conclude h env ch out.0.0 out.0.1) out.1
  all-Accounts to r =
      let out = forward_all h env payload ch to 0 [] r in
      let a = forward_all-Adds to 0 [] r in
      let count : a.0 ≡ out.0.0 = omega (arith, a.3) in
      conclude-Accounts to out.0.0 out.0.1 r out.1 (
        subst (λ n. Sent to n out.0.1 r out.1) count
          (subst (λ es. Sent to a.0 es r out.1) (sym a.4) a.2))

module _ (h : Http) (env : Environ) where
  -- A webhook is forwarded once to each address of its channel (the target, and the shadow where
  -- it is another one), in this order, and the answer counts each as forwarded where `forward` ends
  -- without an error, and as an error where it ends with one. The answer is the 502, with a line
  -- for each error, only if there are errors and errors are to fail the webhook, and no other
  -- answer has errors then.
  pub webhook-Accounts :
      (w : Wrap h.Json) (channel : String) (body : Body h.Json) (r : Relay h.Net)
      → Accounts h env
          (payload_of w body)
          (channel_name channel)
          (targets (target_url env (channel_name channel)) (shadow_url env (channel_name channel)))
          r
          (webhook h env w channel body r).0
          (webhook h env w channel body r).1
  unfolding webhook
  webhook-Accounts w channel body r =
      to_list
        (targets (target_url env (channel_name channel)) (shadow_url env (channel_name channel)))
    where
      ch : String
      ch = channel_name channel

      answer_to : List (String × String) → Answer × Relay h.Net
      answer_to to = elim to as (λ _. Answer × Relay h.Net) [
        | [] ↦ (answered ch 0 0, r)
        | t ∷ rest ↦
            let ((done, errors), r') = forward_all h env (payload_of w body) ch (t ∷ rest) 0 [] r in
            (conclude h env ch done errors, r')
      ]

      to_list :
          (to : List (String × String))
          → Accounts h env (payload_of w body) ch to r (answer_to to).0 (answer_to to).1
      to_list [] = ([], refl, ended, refl, λ _. refl)
      to_list (t ∷ rest) = all-Accounts h env (payload_of w body) ch (t ∷ rest) r
