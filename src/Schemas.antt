-- ===== src/Schemas.antt =====
-- swpt_debtors/schemas.py: what the schemas of the requests accept, and what those of the answers
-- render. How JSON becomes strings and numbers, and times texts, is left to marshmallow.
pub mod Fields
pub mod Requests
pub mod Links
pub mod Views
pub mod Listing
pub mod Transfers
pub mod Accepts
pub mod Bounds
