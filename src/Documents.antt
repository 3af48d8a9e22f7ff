-- ===== src/Documents.antt =====
-- documents-officiels: the campaign of a fiscal year with its committee, and the workflow of an
-- official document: drafted, submitted to the committee, visaed, signed.
pub mod Store
pub mod Texte
pub mod Campagne
pub mod Workflow
pub mod Rejet
pub mod Requests
pub mod Effects
pub mod Soumission
pub mod Approval
pub mod Signature
