-- ===== src/Components.antt =====
-- cmd/server/web/src/components: what each component of the console renders. An element of
-- components/ui, which other code provides, is a tag here.
pub mod Basic
pub mod Tables
pub mod Logs
pub mod Charts
pub mod RangePicker
pub mod Sidebar
