-- ===== src/Cmd/Lists/Entries.antt =====
-- What HandleList lists: the references of the remote, and the symbolic HEAD.
use mathlib.Core.Path.{subst}
use gnoci.Base.{
  sym, ap, false, none, some, [], ◌∷◌, ◌≡◌, refl, ◌⊎◌, ◌↔◌, inl, inr, Bool, true, Option, Text,
  text, text_eq, In, In-append, In-append_left, In-append_right, Bool-cases,
}
use gnoci.Base.Dict.{Dict, entries}
use gnoci.Plumbing.{Reference, Repository}
use gnoci.Oci.{ReferenceInfo}
use gnoci.Protocol.Lists.{ListResponse}
use gnoci.Model.{Modeler, head_refs, tag_refs}
use gnoci.Cmd.Lists.{
  entry, is_head, head_name, branch_entries, list_heads, list_tags, list_results, local_head,
}

-- The symbolic HEAD
abbrev pub head_entry : Text → ListResponse
head_entry name = record { reference = text "HEAD"; commit = b'@' ∷ name }

-- One of these references
abbrev pub Entry : Dict ReferenceInfo → ListResponse → Type 0
Entry refs r = (e : Text × ReferenceInfo) × In e refs × (r ≡ entry e)

-- The HEAD of the local repository, which is one of these references
abbrev pub HeadEntry : Option Text → Dict ReferenceInfo → ListResponse → Type 0
HeadEntry head refs r =
    (e : Text × ReferenceInfo) × In e refs × (is_head e.0 head ≡ true) × (r ≡ head_entry e.0)

branch-In :
    (head : Option Text) (e : Text × ReferenceInfo) (r : ListResponse)
    → In r (branch_entries head e)
    → (r ≡ entry e) ⊎ ((is_head e.0 head ≡ true) × (r ≡ head_entry e.0))
unfolding branch_entries
branch-In head (name, info) r i = elim (Bool-cases (is_head name head)) [
  | inl h ↦ two h (rw h at i)
  | inr h ↦ one (rw h at i)
]
  where
    one :
        In r (entry (name, info) ∷ [])
        → (r ≡ entry (name, info)) ⊎ ((is_head name head ≡ true) × (r ≡ head_entry name))
    one (inl e) = inl e
    one (inr x) = elim x [ ]

    two :
        is_head name head ≡ true
        → In r (head_entry name ∷ entry (name, info) ∷ [])
        → (r ≡ entry (name, info)) ⊎ ((is_head name head ≡ true) × (r ≡ head_entry name))
    two h (inl e) = inr (h, e)
    two h (inr (inl e)) = inl e
    two h (inr (inr x)) = elim x [ ]

heads-In :
    (head : Option Text) (refs : Dict ReferenceInfo) (r : ListResponse)
    → In r (list_heads head refs)
    → Entry refs r ⊎ HeadEntry head refs r
unfolding list_heads
heads-In head [] r i = elim i [ ]
heads-In head (ref ∷ refs) r i =
    elim (In-append r (branch_entries head ref) (list_heads head refs) i) [
      | inl here ↦ elim (branch-In head ref r here) [
        | inl e ↦ inl (ref, inl refl, e)
        | inr (h, e) ↦ inr (ref, inl refl, h, e)
      ]
      | inr there ↦ elim (heads-In head refs r there) [
        | inl (e, j, same) ↦ inl (e, inr j, same)
        | inr (e, j, h, same) ↦ inr (e, inr j, h, same)
      ]
    ]

tags-In : (refs : Dict ReferenceInfo) (r : ListResponse) → In r (list_tags refs) → Entry refs r
unfolding list_tags
tags-In [] r i = elim i [ ]
tags-In (ref ∷ refs) r (inl e) = (ref, inl refl, e)
tags-In (ref ∷ refs) r (inr i) = let (e, j, same) = tags-In refs r i in (e, inr j, same)

entry-In-branch :
    (head : Option Text) (e : Text × ReferenceInfo) → In (entry e) (branch_entries head e)
unfolding branch_entries
entry-In-branch head (name, info) = elim (Bool-cases (is_head name head)) [
  | inl h ↦ rw h (inr (inl refl))
  | inr h ↦ rw h (inl refl)
]

entry-In-heads :
    (head : Option Text) (refs : Dict ReferenceInfo) (e : Text × ReferenceInfo)
    → In e refs
    → In (entry e) (list_heads head refs)
unfolding list_heads
entry-In-heads head [] e i = elim i [ ]
entry-In-heads head (ref ∷ refs) e (inl same) =
    rw same (In-append_left _ _ _ (entry-In-branch head ref))
entry-In-heads head (ref ∷ refs) e (inr i) =
    In-append_right _ (branch_entries head ref) _ (entry-In-heads head refs e i)

head-In-branch :
    (head : Option Text) (e : Text × ReferenceInfo)
    → is_head e.0 head ≡ true
    → In (head_entry e.0) (branch_entries head e)
unfolding branch_entries
head-In-branch head (name, info) h = rw h (inl refl)

head-In-heads :
    (head : Option Text) (refs : Dict ReferenceInfo) (e : Text × ReferenceInfo)
    → is_head e.0 head ≡ true
    → In e refs
    → In (head_entry e.0) (list_heads head refs)
unfolding list_heads
head-In-heads head [] e h i = elim i [ ]
head-In-heads head (ref ∷ refs) e h (inl same) =
    rw same (In-append_left _ _ _ (head-In-branch head ref (rw same at h)))
head-In-heads head (ref ∷ refs) e h (inr i) =
    In-append_right _ (branch_entries head ref) _ (head-In-heads head refs e h i)

entry-In-tags :
    (refs : Dict ReferenceInfo) (e : Text × ReferenceInfo)
    → In e refs
    → In (entry e) (list_tags refs)
unfolding list_tags
entry-In-tags [] e i = elim i [ ]
entry-In-tags (ref ∷ refs) e (inl same) = inl (rw same refl)
entry-In-tags (ref ∷ refs) e (inr i) = inr (entry-In-tags refs e i)

-- What may stand in the list
abbrev pub Listed : Option Text → Modeler → ListResponse → Type 0
Listed head remote r =
    Entry (head_refs remote) r ⊎ (Entry (tag_refs remote) r ⊎ HeadEntry head (head_refs remote) r)

module _ (for_push : Bool) (local : Option Repository) (remote : Modeler) where
  results-Listed :
      (r : ListResponse)
      → In r (list_results for_push local remote)
      → Listed (local_head for_push local) remote r
  unfolding list_results
  results-Listed r i =
      elim (In-append r (list_heads (local_head for_push local) (head_refs remote)) _ i) [
        | inl h ↦ elim (heads-In _ (head_refs remote) r h) [ inl e ↦ inl e | inr e ↦ inr (inr e) ]
        | inr t ↦ inr (inl (tags-In (tag_refs remote) r t))
      ]

  In-list_results :
      (r : ListResponse)
      → Listed (local_head for_push local) remote r
      → In r (list_results for_push local remote)
  unfolding list_results
  In-list_results r (inl (e, i, same)) =
      rw same (In-append_left _ _ _ (entry-In-heads _ (head_refs remote) e i))
  In-list_results r (inr (inl (e, i, same))) = rw same (
      In-append_right _ (list_heads (local_head for_push local) (head_refs remote)) _
        (entry-In-tags (tag_refs remote) e i))
  In-list_results r (inr (inr (e, i, h, same))) =
      rw same (In-append_left _ _ _ (head-In-heads _ (head_refs remote) e h i))

  pub results_iff :
      (r : ListResponse)
      → In r (list_results for_push local remote) ↔ Listed (local_head for_push local) remote r
  results_iff r = (results-Listed r, In-list_results r)

-- The response for a reference that the map holds, with its commit
abbrev pub Shows : Option (Dict ReferenceInfo) → ListResponse → Type 0
Shows refs r =
    (info : ReferenceInfo) × In (r.reference, info) (entries refs) × (r.commit ≡ info.commit)

-- The symbolic HEAD, in a list that is not for a push: the HEAD of the local repository is a branch of
-- the remote.
abbrev pub ShowsHead : Bool → Option Repository → Modeler → ListResponse → Type 0
ShowsHead for_push local remote r =
    (repo : Repository) × (head : Reference) × (info : ReferenceInfo) × (for_push ≡ false)
    × (local ≡ some repo)
    × (repo.head ≡ some head)
    × In (head.name, info) (entries remote.cfg.heads)
    × (r ≡ record { reference = text "HEAD"; commit = b'@' ∷ head.name })

local_head-is :
    (for_push : Bool) (local : Option Repository) (name : Text)
    → is_head name (local_head for_push local) ≡ true
    → (repo : Repository) × (head : Reference) × (for_push ≡ false)
      × (local ≡ some repo)
      × (repo.head ≡ some head)
      × (name ≡ head.name)
unfolding local_head head_name
local_head-is true local name h = cc
local_head-is false none name h = cc
local_head-is false (some repo) name h = known repo.head refl h
  where
    known :
        (found : Option Reference)
        → repo.head ≡ found
        → is_head name (head_name found) ≡ true
        → (repo2 : Repository) × (head : Reference) × (false ≡ false)
          × (some repo ≡ some repo2)
          × (repo2.head ≡ some head)
          × (name ≡ head.name)
    known none e k = cc
    known (some head) e k = (repo, head, refl, refl, e, (text_eq.beq_iff name head.name).0 k)

is_local_head :
    (repo : Repository) (head : Reference)
    → repo.head ≡ some head
    → is_head head.name (local_head false (some repo)) ≡ true
unfolding local_head head_name
is_local_head repo head e = rw e ((text_eq.beq_iff head.name head.name).1 refl)

Entry-Shows :
    (refs : Option (Dict ReferenceInfo)) (r : ListResponse) → Entry (entries refs) r → Shows refs r
Entry-Shows refs r ((name, info), i, same) = (
  info,
  subst (λ n. In (n, info) (entries refs)) (sym (ap (λ x. x.reference) same)) i,
  ap (λ x. x.commit) same,
)

Shows-Entry :
    (refs : Option (Dict ReferenceInfo)) (r : ListResponse) → Shows refs r → Entry (entries refs) r
Shows-Entry refs r (info, i, same) =
    ((r.reference, info), i, λ j. record { reference = r.reference; commit = same j })

module _ (for_push : Bool) (local : Option Repository) (remote : Modeler) where
  Listed-shown :
      (r : ListResponse)
      → Listed (local_head for_push local) remote r
      → Shows remote.cfg.heads r ⊎ (Shows remote.cfg.tags r ⊎ ShowsHead for_push local remote r)
  unfolding head_refs tag_refs
  Listed-shown r (inl e) = inl (Entry-Shows remote.cfg.heads r e)
  Listed-shown r (inr (inl e)) = inr (inl (Entry-Shows remote.cfg.tags r e))
  Listed-shown r (inr (inr ((name, info), i, at, same))) =
      let (repo, head, no_push, has_repo, has_head, name_is) =
        local_head-is for_push local name at in
      inr (
        inr (
          repo,
          head,
          info,
          no_push,
          has_repo,
          has_head,
          subst (λ n. In (n, info) (entries remote.cfg.heads)) name_is i,
          subst (λ n. r ≡ head_entry n) name_is same,
        ))

  shown-Listed :
      (r : ListResponse)
      → Shows remote.cfg.heads r ⊎ (Shows remote.cfg.tags r ⊎ ShowsHead for_push local remote r)
      → Listed (local_head for_push local) remote r
  unfolding head_refs tag_refs
  shown-Listed r (inl e) = inl (Shows-Entry remote.cfg.heads r e)
  shown-Listed r (inr (inl e)) = inr (inl (Shows-Entry remote.cfg.tags r e))
  shown-Listed r (inr (inr (repo, head, info, no_push, has_repo, has_head, i, same))) =
      inr (
        inr ((head.name, info), i, rw (no_push, has_repo) (is_local_head repo head has_head), same))

  -- A response stands in the list exactly if it is that of a branch or of a tag of the remote, with
  -- its commit, or the symbolic HEAD for the branch of the remote that the HEAD of the local
  -- repository names, where the list is not for a push and there is a local repository.
  pub list_results-Listed :
      (r : ListResponse)
      → In r (list_results for_push local remote)
        ↔ (Shows remote.cfg.heads r ⊎ (Shows remote.cfg.tags r ⊎ ShowsHead for_push local remote r))
  list_results-Listed r =
      let (to, from) = results_iff for_push local remote r in
      (λ i. Listed-shown r (to i), λ h. from (shown-Listed r h))
