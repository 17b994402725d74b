-- ===== src/SessionManager/Reconciler/Leases.antt =====
-- Pending operations without a lease.
use curator_agent_launcher.SessionManager.Reconciler.{granted, has_lease}
use curator_agent_launcher.Base.{arith, some, ◌≡◌, false, Bool, String}
use curator_agent_launcher.SessionManager.Pending.{Pending, PendingFile, pending}
use curator_agent_launcher.SessionManager.Pending.{write_pending, pending, PendingFile}

abbrev pub holds_lease : {Request Lease : Type 0} → PendingFile Request Lease → Bool
holds_lease PendingFile.absent = false
holds_lease PendingFile.unreadable = false
holds_lease (PendingFile.holding p) = has_lease p

pub pending-unleased :
    {Request Lease : Type 0} (id : String) (plain : Bool)
    (valid correlated : Pending Request Lease → Bool)
    → (f : PendingFile Request Lease) (p : Pending Request Lease) → holds_lease f ≡ false
    → pending id plain valid correlated f ≡ granted (some p)
    → has_lease p ≡ false
unfolding pending
pending-unleased id plain valid correlated PendingFile.absent p free e = cc
pending-unleased id plain valid correlated PendingFile.unreadable p free e = cc
pending-unleased id plain valid correlated (PendingFile.holding q) p free e = ground arith

pub write_pending-unleased :
    {Request Lease : Type 0} (id : String) (plain : Bool)
    (valid correlated : Pending Request Lease → Bool)
    → (f : PendingFile Request Lease) (writes : Bool) (p q : Pending Request Lease)
    → has_lease p ≡ false
    → write_pending id plain valid correlated f writes p ≡ granted q
    → has_lease q ≡ false
unfolding write_pending pending
write_pending-unleased id plain valid correlated PendingFile.absent writes p q free e = ground arith
write_pending-unleased id plain valid correlated PendingFile.unreadable writes p q free e = cc
write_pending-unleased id plain valid correlated (PendingFile.holding r) writes p q free e =
    ground arith
