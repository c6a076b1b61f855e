-- ===== src/AdminApi.antt =====
-- src/rbac-api.js: the routes under /admin over the functions of src/rbac.js. `Lists` holds the
-- reads for display, `Routes` the handlers, `Gate` who gets past requireSuperuser.
pub mod Lists
pub mod Routes
pub mod Gate
mod Examples
