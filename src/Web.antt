-- ===== src/Web.antt =====
-- swpt_debtors/routes.py: the permissions and the endpoints of the Web API. Their arguments are
-- those that the schemas have accepted.
pub mod Users
pub mod Response
pub mod Admin
pub mod Debtors
pub mod Transfers
pub mod Access
pub mod Outcomes
pub mod Reservation
pub mod Served
pub mod Listing
pub mod Handled
pub mod OtherDebtors
pub mod Isolation
pub mod Crawled
pub mod Replies
pub mod Creation
