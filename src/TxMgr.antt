-- ===== src/TxMgr.antt =====
-- Package txmgr: the state shared by the publication attempts of one transaction (SendState), the
-- confirmation loop (WaitMined) and the resubmission loop with its goroutines (Manager).
pub mod SendState
pub mod WaitMined
pub mod Manager
mod Tests
