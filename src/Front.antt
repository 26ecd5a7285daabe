-- ===== src/Front.antt =====
-- front/: the page in the browser.
pub mod Events
