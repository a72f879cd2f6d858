-- ===== src/Dns/Actions.antt =====
-- internal/dns/route53.go: the results of `Register`.
use eth_node_operator.Common.{
  String, ◌≡◌, ◌⊎◌, inl, inr, refl, ap, subst, Bool, true, false, if◌then◌else◌, ◌==◌, eq_iff,
  Result, ok, err, ok-inj, >>=-eq-ok, arith,
}
use eth_node_operator.Common.Int.{ℤ}
use eth_node_operator.Types.{ReconcileResult}
use eth_node_operator.Dns.{RegisterResult}
use eth_node_operator.Dns.Records.{
  Host, DnsState, deleted, leave_old, named_action, write_record, is_current, finish, register_ip,
  register, current_record, upsert, delete, public_ip, or_300,
}
use eth_node_operator.Reconciler.Pass.{add_dns}

-- The action is not set, or a client change.
abbrev IsEarly : RegisterResult → Type 0
IsEarly r = (r.action ≡ "") ⊎ (r.action ≡ "changed-client")

-- A result for the host name and the zone, with one of the four actions.
pub record IsRegistered (hostname zone_id : String) (r : RegisterResult) : Type 0 where
  pub same_name : r.hostname ≡ hostname
  pub same_zone : r.zone_id ≡ zone_id
  pub known_action :
      (r.action ≡ "registered")
      ⊎ ((r.action ≡ "updated-ip")
          ⊎ ((r.action ≡ "changed-client") ⊎ (r.action ≡ "already-current")))

record IsBegun (hostname zone_id : String) (r : RegisterResult) : Type 0 where
  same_name : r.hostname ≡ hostname
  same_zone : r.zone_id ≡ zone_id
  early : IsEarly r

not_upsert :
    (action : String)
    → (action ≡ "registered")
      ⊎ ((action ≡ "updated-ip") ⊎ ((action ≡ "changed-client") ⊎ (action ≡ "already-current")))
    → (action == "UPSERT") ≡ false
not_upsert action (inl e) = rw e refl
not_upsert action (inr (inl e)) = rw e refl
not_upsert action (inr (inr (inl e))) = rw e refl
not_upsert action (inr (inr (inr e))) = rw e refl

deleted-IsBegun :
    (hostname zone_id old : String) (r : RegisterResult) (d : Result (Unit {0}))
    → IsBegun hostname zone_id r
    → IsBegun hostname zone_id (deleted old r d)
deleted-IsBegun hostname zone_id old r (ok done) b = record {
  same_name = b.same_name;
  same_zone = b.same_zone;
  early = inr refl;
}
deleted-IsBegun hostname zone_id old r (err e) b = record {
  same_name = b.same_name;
  same_zone = b.same_zone;
  early = b.early;
}

named_action-IsRegistered :
    (hostname zone_id : String) (current : Result String) (r : RegisterResult)
    → IsBegun hostname zone_id r
    → IsRegistered hostname zone_id (named_action current r)
named_action-IsRegistered hostname zone_id current r b = record {
  same_name = ground (arith, b.same_name);
  same_zone = ground (arith, b.same_zone);
  known_action = ground (arith, b.early, eq_iff r.action "");
}

module _ {W : Type 0} (h : Host W) where
  leave_old-IsBegun :
      (hostname zone_id : String) (prev : Result DnsState) (r : RegisterResult) (w : W)
      → IsBegun hostname zone_id r
      → IsBegun hostname zone_id (leave_old h prev r w).0
  unfolding leave_old
  leave_old-IsBegun hostname zone_id (err e) r w b = b
  leave_old-IsBegun hostname zone_id (ok prev) r w b = ground (
    arith,
    deleted-IsBegun hostname zone_id prev.hostname r (delete h prev.hostname r.zone_id w).0 b,
    b,
  )

  write_record-IsRegistered :
      (hostname zone_id : String) (ttl : ℤ) (current : Result String) (r s : RegisterResult)
      (w w1 : W)
      → IsBegun hostname zone_id r
      → write_record h ttl current r w ≡ (ok s, w1)
      → IsRegistered hostname zone_id s
  unfolding write_record
  write_record-IsRegistered hostname zone_id ttl current r s w w1 b e =
      let (done, _, e1) = >>=-eq-ok (upsert h r.hostname r.zone_id r.ip ttl) _ w e in
      subst (IsRegistered hostname zone_id)
        (ok-inj (ap (λ (p : Result RegisterResult × W). p.0) e1))
        (named_action-IsRegistered hostname zone_id current r b)

  finish-cases :
      (is_same : Bool) (hostname zone_id : String) (ttl : ℤ) (current : Result String)
      (r s : RegisterResult) (w w1 : W)
      → IsBegun hostname zone_id r
      → (if is_same
          then (ok (record r { action = "already-current" }), w)
          else write_record h ttl current r w)
        ≡ (ok s, w1)
      → IsRegistered hostname zone_id s
  finish-cases true hostname zone_id ttl current r s w w1 b e =
      subst (IsRegistered hostname zone_id) (ok-inj (ap (λ (p : Result RegisterResult × W). p.0) e))
        (record {
          same_name = b.same_name;
          same_zone = b.same_zone;
          known_action = inr (inr (inr refl));
        })
  finish-cases false hostname zone_id ttl current r s w w1 b e =
      write_record-IsRegistered hostname zone_id ttl current r s w w1 b e

  finish-IsRegistered :
      (hostname zone_id : String) (ttl : ℤ) (r s : RegisterResult) (w w1 : W)
      → IsBegun hostname zone_id r
      → finish h ttl r w ≡ (ok s, w1)
      → IsRegistered hostname zone_id s
  unfolding finish
  finish-IsRegistered hostname zone_id ttl r s w w1 b e =
      let (current, w2) = current_record h r.zone_id r.hostname w in
      finish-cases (is_current r.ip current) hostname zone_id ttl current r s w2 w1 b e

  register_ip-IsRegistered :
      (hostname zone_id : String) (ttl : ℤ) (ip : Result String) (r : RegisterResult) (w w1 : W)
      → register_ip h hostname zone_id ttl ip w ≡ (ok r, w1)
      → IsRegistered hostname zone_id r
  unfolding register_ip
  register_ip-IsRegistered hostname zone_id ttl (err x) r w w1 e = cc
  register_ip-IsRegistered hostname zone_id ttl (ok ip) r w w1 e =
      let (prev, w2) = h.load_state w in
      finish-IsRegistered hostname zone_id (or_300 ttl) _ r _ w1
        (leave_old-IsBegun hostname zone_id prev _ w2
          (record { same_name = refl; same_zone = refl; early = inl refl }))
        e

  -- A registration that succeeds is one of the host name and the zone that were asked for, and its action is "registered",
  -- "updated-ip", "changed-client" or "already-current".
  register-IsRegistered :
      (hostname zone_id : String) (ttl : ℤ) (r : RegisterResult) (w w1 : W)
      → register h hostname zone_id ttl w ≡ (ok r, w1)
      → IsRegistered hostname zone_id r
  unfolding register
  register-IsRegistered hostname zone_id ttl r w w1 e =
      let (ip, w2) = public_ip h w in register_ip-IsRegistered hostname zone_id ttl ip r w2 w1 e

  -- A registration is never among the actions of a pass: with what `Register` returns, step 4 of the pass adds no action to the result.
  add_dns-register :
      (hostname zone_id : String) (ttl : ℤ) (w : W) (result : ReconcileResult)
      → (add_dns (register h hostname zone_id ttl w).0 result).actions ≡ result.actions
  add_dns-register hostname zone_id ttl w result =
      added (register h hostname zone_id ttl w).0 (λ r e.
        register-IsRegistered hostname zone_id ttl r w (register h hostname zone_id ttl w).1
          (ap (λ (o : Result RegisterResult). (o, (register h hostname zone_id ttl w).1)) e))
    where
      added :
          (o : Result RegisterResult)
          → ((r : RegisterResult) → o ≡ ok r → IsRegistered hostname zone_id r)
          → (add_dns o result).actions ≡ result.actions
      added (ok r) k = rw (not_upsert r.action (k r refl).known_action) refl
      added (err x) k = refl
