-- ===== src/Ledger/Sessions.antt =====
-- What the checks of host sessions and Git operations give.
use idk.Common.{
  ◌≤◌, ◌≡◌, List, [], ◌∷◌, map, Text, text_Eq, pair_Eq, Bool, false, ◌||◌, contains, Distinct,
  length, leb, ok, err, ensure, >>-eq-ok, >>=-eq-ok, ensure-eq-ok, try_fold, try_fold_fresh,
  if◌then◌else◌, arith, ◌==◌, ◌&&◌,
}
use idk.Model.{host_ledger, duplicate_session}
use idk.Ledger.Hosts.{
  HostLedger, HostRecord, Seen, validate_host_ledger, validate_host_record, session_step,
  host_record_limit,
}

insert_both :
    (ids : List Text) (definitions : List (Text × Text)) (id : Text) (d : Text × Text)
    (seen' : Seen)
    → (if contains id ids || contains d definitions
        then err duplicate_session
        else ok (id ∷ ids, d ∷ definitions))
      ≡ ok seen'
    → (contains id ids ≡ false)
      × (id ∷ ids ≡ seen'.0)
      × (contains d definitions ≡ false)
      × (d ∷ definitions ≡ seen'.1)
insert_both ids definitions id d seen' h = ground (arith, h)

module _ (is_uuid : Text → Bool) where
  session_step-keeps :
      (seen : Seen) (r : HostRecord) (seen' : Seen)
      → session_step is_uuid seen r ≡ ok seen'
      → (contains r.session_id seen.0 ≡ false)
        × (r.session_id ∷ seen.0 ≡ seen'.0)
        × (contains (r.project_id, r.terminal_id) seen.1 ≡ false)
        × ((r.project_id, r.terminal_id) ∷ seen.1 ≡ seen'.1)
  unfolding session_step
  session_step-keeps (ids, definitions) r seen' h =
      insert_both ids definitions r.session_id (r.project_id, r.terminal_id) seen'
        (>>-eq-ok (validate_host_record is_uuid r) _ h).1

  -- In a ledger of host sessions that is accepted no two sessions have the same identifier, no two
  -- are of the same terminal of the same project, and there are at most 8256 of them.
  pub validate_host_ledger_unique :
      (l : HostLedger)
      → validate_host_ledger is_uuid l ≡ ok tt
      → Distinct (map (λ r. r.session_id) l.sessions)
        × Distinct {K = Text × Text} (map (λ r. (r.project_id, r.terminal_id)) l.sessions)
        × (length l.sessions ≤ 8256)
  unfolding validate_host_ledger
  validate_host_ledger_unique l h =
      let sized = l.schema == 1 && leb (length l.sessions) host_record_limit in
      let (first, rest) = >>-eq-ok (ensure sized host_ledger) _ h in
      let (last, folded, _) =
        >>=-eq-ok (try_fold ([], []) l.sessions (session_step is_uuid)) (λ _. ok tt) rest in
      let (ids, _, _) =
        try_fold_fresh (λ r. r.session_id) (λ t. t.0) (session_step is_uuid)
          (λ s r s' e. let (a, b, _, _) = session_step-keeps s r s' e in (a, b)) ([], []) last
          l.sessions folded in
      let (definitions, _, _) =
        try_fold_fresh (λ r. (r.project_id, r.terminal_id)) (λ t. t.1) (session_step is_uuid)
          (λ s r s' e. let (_, _, a, b) = session_step-keeps s r s' e in (a, b)) ([], []) last
          l.sessions folded in
      (ids, definitions, ground (arith, ensure-eq-ok sized host_ledger first))
