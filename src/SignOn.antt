-- ===== src/SignOn.antt =====
-- Single sign-on: src/bioseasy/oidc.py, and the routes of src/bioseasy/app.py that use it. Claims has
-- what a provider says of an identity, Links the table of identities, Callback the route.
pub mod Claims
pub mod Links
pub mod Callback
mod Samples
