-- ===== src/Cases.antt =====
-- services/cases/permissions.py and services/cases/reserved_predicate.py, with the queries of
-- services/case_queries.py and the listing filter of services/cases/retrieval.py that they agree
-- with: who may see and change a case.
pub mod Tables
pub mod Sectors
pub mod View
pub mod Permissions
pub mod Visibility
pub mod Editing
pub mod Administrator
mod Scenarios
