-- ===== src/Cmd/Compare/Deferred.antt =====
-- The references that compareRefs leaves for the new packfile.
use gnoci.Base.{
  List, [], ◌∷◌, ◌≡◌, refl, inl, inr, Bool, true, false, Text, Option, none, some, ◌==◌, text_eq,
  nat_eq, contains, All, All-append, In, In-append_left, In-append_right, arith, if◌then◌else◌,
  Bool-cases,
}
use gnoci.Outcome.{Action, Result, ok, err, crash, continue, caught, within, ◌>>=◌, ◌>>◌}
use gnoci.Outcome.Keeps.{
  Keeps, Keeps-attempt, Keeps-bind, Keeps-then, Keeps-if, Keeps-lift, Keeps-modify, Keeps-pure,
  Keeps-for_each,
}
use gnoci.Plumbing.{Hash, GoGit, Repository, Reference}
use gnoci.Protocol.Push.{PushRequest}
use gnoci.Model.{Modeler}
use gnoci.Model.Invariant.{All-weaken}
use gnoci.Refcomp.{RefPair, compare_cached, has_status, status_delete, status_add_commit}
use gnoci.Refcomp.Pairs.{AddsCommit, CacheAdds, compare_cached-Returned}
use gnoci.Cmd.Compare.{
  Plan, on_remote, respond, add_tip, delete_remote, update_remote, update_case, add_commit_tip,
  updates, handle_pair, compared, handle_request, compare_refs, start_plan,
}

-- The commit of every reference left for the packfile is a tip of the packfile.
abbrev pub Covered : Plan → Type 0
Covered p = All (λ ref. In ref.hash p.new_commit_tips) p.refs_in_new_pack

contains-In : (h : Hash) (tips : List Hash) → contains tips h ≡ true → In h tips
unfolding contains
contains-In h [] c = cc
contains-In h (t ∷ tips) c = elim (Bool-cases (h == t)) [
  | inl e ↦ inl ((nat_eq.beq_iff h t).0 e)
  | inr e ↦ inr (contains-In h tips (rw e at c))
]

In-add_tip : (h : Hash) (tips : List Hash) → In h (add_tip h tips)
In-add_tip h tips = elim (Bool-cases (contains tips h)) [
  | inl e ↦ rw e (contains-In h tips e)
  | inr e ↦ rw e (In-append_right h tips (h ∷ []) (inl refl))
]

add_tip-keeps : (h x : Hash) (tips : List Hash) → In x tips → In x (add_tip h tips)
add_tip-keeps h x tips i = elim (Bool-cases (contains tips h)) [
  | inl e ↦ rw e i
  | inr e ↦ rw e (In-append_left x tips (h ∷ []) i)
]

module _ (git : GoGit) (repo : Repository) where
  -- What every round of the loop keeps
  abbrev Ready : Plan → Type 0
  Ready p = CacheAdds git repo p.comparer × Covered p

  on_remote-Ready : {A : Type 0} (m : Action Modeler A) → Keeps Ready (on_remote m)
  unfolding within
  on_remote-Ready m = record { after = λ p h. h }

  delete_remote-Ready : (name : Text) → Keeps Ready (delete_remote git repo name)
  unfolding delete_remote
  delete_remote-Ready name =
      Keeps-bind _ _ (Keeps-attempt _ (on_remote-Ready _))
        λ gone. Keeps-bind _ _ (Keeps-lift _) λ e. record { after = λ p h. h }

  -- With a layer at hand the reference is not left for the packfile.
  update_remote-Ready :
      (name : Text) (ref : Reference) (layer : Text)
      → (layer == []) ≡ false
      → Keeps Ready (update_remote git repo name ref layer)
  unfolding update_remote
  update_remote-Ready name ref layer e = rw e (
      Keeps-bind _ _ (Keeps-attempt _ (on_remote-Ready _))
        λ updated. Keeps-bind _ _ (Keeps-lift _) λ x. record { after = λ p h. h })

  add_commit_tip-Ready :
      (add : Bool) (local : Reference) → Keeps Ready (add_commit_tip git repo add local)
  unfolding add_commit_tip
  add_commit_tip-Ready true local = Keeps-modify _ (λ p h. (
    h.0,
    All-weaken p.refs_in_new_pack (λ ref i. add_tip-keeps local.hash ref.hash p.new_commit_tips i)
        h.1,
  ))
  add_commit_tip-Ready false local = Keeps-pure tt

  -- Without one it is, and its commit is added first.
  deferred :
      (name : Text) (local : Reference) (ref : Reference) (layer : Text) (add : Bool)
      → ref.hash ≡ local.hash
      → (layer == []) ≡ true
      → add ≡ true
      → Keeps Ready (add_commit_tip git repo add local >> update_remote git repo name ref layer)
  unfolding add_commit_tip update_remote ◌>>=◌
  deferred name local ref layer add same empty added =
      rw (added, empty)
        (record {
          after = λ p h. (
            h.0,
            All-append _ p.refs_in_new_pack (ref ∷ [])
                (All-weaken p.refs_in_new_pack
                  (λ x i. add_tip-keeps local.hash x.hash p.new_commit_tips i) h.1)
                (rw same (In-add_tip local.hash p.new_commit_tips), tt),
          );
        })

  update_case-Ready :
      (name : Text) (rp : RefPair) (local : Option Reference)
      → ((rp.layer == []) ≡ true → has_status rp.status status_add_commit ≡ true)
      → Keeps Ready (update_case git repo name rp local)
  unfolding update_case
  update_case-Ready name rp none adds = Keeps-lift _
  update_case-Ready name rp (some local) adds = elim (Bool-cases (rp.layer == [])) [
    | inl e ↦ deferred name local _ rp.layer _ refl e (ground (arith, adds e))
    | inr e ↦ Keeps-then _ _ (add_commit_tip-Ready _ local) (update_remote-Ready name _ rp.layer e)
  ]

  handle_pair-Ready :
      (name : Text) (rp : RefPair) → AddsCommit rp → Keeps Ready (handle_pair git repo name rp)
  unfolding handle_pair
  handle_pair-Ready name rp (inl d) = rw d (delete_remote-Ready name)
  handle_pair-Ready name rp (inr adds) =
      Keeps-if (has_status rp.status status_delete) (delete_remote git repo name)
        (if updates rp.status then update_case git repo name rp rp.local else respond name none)
        (λ e. delete_remote-Ready name)
        λ e.
          Keeps-if (updates rp.status) (update_case git repo name rp rp.local) (respond name none)
            (λ f. update_case-Ready name rp rp.local adds) (λ f. record { after = λ p h. h })

  compared-Ready :
      (name : Text) (r : Result RefPair)
      → ((rp : RefPair) → r ≡ ok rp → AddsCommit rp)
      → Keeps Ready (compared git repo name r)
  unfolding compared
  compared-Ready name (ok rp) k = handle_pair-Ready name rp (k rp refl)
  compared-Ready name (err e) k = record { after = λ p h. h }
  compared-Ready name (crash x) k = Keeps-lift _

  compared-caught :
      (name : Text) (r : Result RefPair)
      → ((rp : RefPair) → r ≡ ok rp → AddsCommit rp)
      → Keeps Ready (continue (caught r) (compared git repo name))
  compared-caught name (ok rp) k = compared-Ready name (ok rp) k
  compared-caught name (err e) k = compared-Ready name (err e) k
  compared-caught name (crash x) k = record { after = λ p h. h }

  handle_request-Ready : (req : PushRequest) → Keeps Ready (handle_request git repo req)
  unfolding handle_request ◌>>=◌
  handle_request-Ready req = record {
    after = λ p h.
        let (cache, pair) =
          compare_cached-Returned git repo req.force req.src req.remote p.comparer h.0 in
        let (r, c) = compare_cached git repo req.force req.src req.remote p.comparer in
        (compared-caught req.remote r pair).after (record p { comparer = c }) (cache, h.1);
  }

  -- Every reference that compareRefs leaves for the new packfile points to a commit that it hands on
  -- as a tip for the packfile, however the loop ends.
  pub compare_refs-Covered :
      (reqs : List PushRequest) (m : Modeler) → Covered (compare_refs git repo reqs m).1
  unfolding compare_refs
  compare_refs-Covered reqs m =
      ((Keeps-for_each reqs _ handle_request-Ready).after (start_plan git repo m) (tt, tt)).1
