-- ===== src/Sender.antt =====
-- txmgr/ethereum/transaction.go, BatchTransactionSender: the goroutines that send transactions.
pub mod Batch
mod Tests
