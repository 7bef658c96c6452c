-- ===== src/Cmd/Push/Listed.antt =====
-- What another clone lists after HandlePush.
use gnoci.Base.{◌≡◌, List, [], ◌∷◌, In, none}
use gnoci.Outcome.{ok}
use gnoci.Plumbing.{Reference, Repository}
use gnoci.Protocol.Push.{PushRequest, PushResponse}
use gnoci.Protocol.Lists.{ListResponse}
use gnoci.Model.Session.{Outside}
use gnoci.Cmd.Push.{Packer}
use gnoci.Cmd.Push.Pushed

module _ {T F : Type 0} (out : Outside T F) (packer : Packer F) (repo : Repository) where
  -- A list shows what a request asks for: no entry of the name, or one with a commit that go-git reads
  -- as it reads the text of the local reference's hash.
  pub data IsListed (results : List ListResponse) (req : PushRequest) : Type 0 where
    deleted :
        req.src ≡ []
        → ((r : ListResponse) → In r results → ¬ (r.reference ≡ req.remote))
        → IsListed results req
    pointed :
        {l : Reference} {r : ListResponse}
        → repo.reference req.src ≡ ok l
        → In r results
        → r.reference ≡ req.remote
        → out.git.new_hash r.commit ≡ out.git.new_hash (out.git.hash_string l.hash)
        → IsListed results req

  -- The responses answer the requests in order, and the list shows what is answered without an error.
  pub data AllListed (results : List ListResponse)
      : List PushRequest → List PushResponse → Type 0 where
    none_left : AllListed results [] []
    one_more :
        {req : PushRequest} {reqs : List PushRequest} {resp : PushResponse}
        {resps : List PushResponse}
        → resp.remote ≡ req.remote
        → (resp.error ≡ none → IsListed results req)
        → AllListed results reqs resps
        → AllListed results (req ∷ reqs) (resp ∷ resps)
