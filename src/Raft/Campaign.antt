-- ===== src/Raft/Campaign.antt =====
-- Elections: `hup`, `bcastVote`, and whom a node may vote for.
use kvgo.Common.{
  Bool, Outcome, add64, false, for_each, if◌then◌else◌, ltb, not, ret, true, ℕ, ◌&&◌, ◌==◌, ◌>>=◌,
}
use kvgo.Pb.{MessageType, Message, empty_message, msg_vote, msg_pre_vote}
use kvgo.Quorum.{VoteResult, vote_won}
use kvgo.Tracker.{record_vote, tally_votes}
use kvgo.Log.Interface.{Storage}
use kvgo.Log.{last_entry_id, is_up_to_date}
use kvgo.Raft.{Raft, State, leader}
use kvgo.Raft.Send.{send}
use kvgo.Raft.Become.{become_pre_candidate, become_candidate}
use kvgo.Raft.Replicate.{become_leader}

module _ {S : Type 0} where
  unfoldable pub can_vote_for : Message → Raft S → Bool
  can_vote_for m r =
      if ltb m.term r.term
      then false
      else if (m.term == r.term) && (not (r.voted_for == 0) && not (r.voted_for == m.from))
      then false
      else true

  abbrev pub vote_for_self : Raft S → Raft S
  vote_for_self r = record r { trk = record_vote r.id true r.trk }

module _ {S : Type 0} ⦃st : Storage S⦄ where
  unfoldable pub is_candidate_up_to_date : Message → Raft S → Outcome Bool
  is_candidate_up_to_date m r = is_up_to_date m.index m.log_term r.raft_log

  -- `canVoteFor(m) && isCandidateUpToDate(m)`
  unfoldable pub grants_vote : Message → Raft S → Outcome Bool
  grants_vote m r = if can_vote_for m r then is_candidate_up_to_date m r else ret false

  abbrev pub ask_vote : MessageType → ℕ → ℕ × ℕ → ℕ → Raft S → Outcome (Raft S)
  ask_vote msg_type term last pid r =
      send
        (record (empty_message msg_type) {
          to = pid;
          term = term;
          index = last.0;
          log_term = last.1;
        })
        r

  unfoldable pub bcast_vote : MessageType → ℕ → Raft S → Outcome (Raft S)
  bcast_vote msg_type term r = do
    last ← last_entry_id r.raft_log
    for_each r.peers (ask_vote msg_type term last) r

  abbrev pub after_election : VoteResult → Raft S → Outcome (Raft S)
  after_election vote_won r = become_leader r
  after_election _ r = bcast_vote msg_vote r.term r

  abbrev pub elect : Raft S → Outcome (Raft S)
  elect r = let r1 = vote_for_self (become_candidate r) in after_election (tally_votes r1.trk) r1

  abbrev pub unless_leader : State → (Raft S → Outcome (Raft S)) → Raft S → Outcome (Raft S)
  unless_leader leader f r = ret r
  unless_leader _ f r = f r

  -- `hup(CampaignElection)` and `hup(CampaignTransfer)`
  unfoldable pub hup_election : Raft S → Outcome (Raft S)
  hup_election r = unless_leader r.state elect r

  abbrev pub after_pre_election : VoteResult → Raft S → Outcome (Raft S)
  after_pre_election vote_won r = hup_election r
  after_pre_election _ r = bcast_vote msg_pre_vote (add64 r.term 1) r

  abbrev pub pre_elect : Raft S → Outcome (Raft S)
  pre_elect r =
      let r1 = vote_for_self (become_pre_candidate r) in after_pre_election (tally_votes r1.trk) r1

  -- `hup(CampaignPreElection)`
  unfoldable pub hup_pre_election : Raft S → Outcome (Raft S)
  hup_pre_election r = unless_leader r.state pre_elect r
