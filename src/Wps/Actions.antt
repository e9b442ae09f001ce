-- ===== src/Wps/Actions.antt =====
-- The actions of the worker proposal system as one type, with the function that runs one.
use wax_system_contracts.Prelude.{ℕ, Bool, Result, ok, ◌>>=◌, List, String}
use wax_system_contracts.Asset.{AssetLib, Chain}
use wax_system_contracts.Wps.{VoteLib, Profile, Draft, WpsEnv, Wps}
use wax_system_contracts.Wps.Registry.{
  regproposer, editproposer, rmvproposer, regreviewer, editreviewer, rmvreviewer, setwpsenv,
  setwpsstate, regcommittee, edcommittee, rmvcommittee,
}
use wax_system_contracts.Wps.Proposals.{regproposal, editproposal, claimfunds}
use wax_system_contracts.Wps.Review.{
  acceptprop, rejectprop, approve, rmvreject, rmvcompleted, rejectfund, cleanvotes,
}
use wax_system_contracts.Wps.Voting.{voteproposal}

pub data Op (D : Type 0) : Type 0 where
  regproposes editproposes : ℕ → Profile → Op D
  rmvproposes : ℕ → Op D
  regreviews editreviews : ℕ → ℕ → String → String → Op D
  rmvreviews : ℕ → ℕ → Op D
  sets_env : WpsEnv → Op D
  sets_state : D → Op D
  regcommits edcommits : ℕ → String → Bool → Op D
  rmvcommits : ℕ → Op D
  registers edits : ℕ → ℕ → Draft → Op D
  claims : ℕ → Op D
  accepts approves rmvrejects rmvcompletes : ℕ → ℕ → Op D
  rejects rejectfunds : ℕ → ℕ → String → Op D
  cleans : ℕ → ℕ → ℕ → ℕ → Op D
  votes_for : ℕ → List ℕ → Op D

module _ {D : Type 0} (lib : AssetLib) (votes : VoteLib D) (self : ℕ) where
  unfoldable pub apply : Chain → Op D → Wps D → Result (Wps D)
  apply c (regproposes account profile) s = regproposer c account profile s
  apply c (editproposes account profile) s = editproposer c account profile s
  apply c (rmvproposes account) s = rmvproposer c account s
  apply c (regreviews committee reviewer first last) s =
      regreviewer c committee reviewer first last s
  apply c (editreviews committee reviewer first last) s =
      editreviewer c committee reviewer first last s
  apply c (rmvreviews committee reviewer) s = rmvreviewer c committee reviewer s
  apply c (sets_env env) s = setwpsenv self c env s
  apply c (sets_state total) s = setwpsstate votes self c total s
  apply c (regcommits man category oversight) s = regcommittee self c man category oversight s
  apply c (edcommits man category oversight) s = edcommittee self c man category oversight s
  apply c (rmvcommits man) s = rmvcommittee self c man s
  apply c (registers proposer committee draft) s =
      regproposal lib votes c proposer committee draft s
  apply c (edits proposer committee draft) s = editproposal lib votes c proposer committee draft s
  apply c (claims account) s = do (payment, t) ← claimfunds lib votes c account s; ok t
  apply c (accepts reviewer proposer) s = acceptprop c reviewer proposer s
  apply c (approves reviewer proposer) s = approve c reviewer proposer s
  apply c (rmvrejects reviewer proposer) s = rmvreject c reviewer proposer s
  apply c (rmvcompletes reviewer proposer) s = rmvcompleted c reviewer proposer s
  apply c (rejects reviewer proposer reason) s = rejectprop c reviewer proposer reason s
  apply c (rejectfunds committeeman proposer reason) s = rejectfund c committeeman proposer reason s
  apply c (cleans reviewer proposer from to) s = cleanvotes c reviewer proposer from to s
  apply c (votes_for voter proposals) s = voteproposal votes c voter proposals s
