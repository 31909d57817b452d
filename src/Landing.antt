-- ===== src/Landing.antt =====
-- nexra-landing/app.js and nexra-landing/waitlist.js: the interactive parts of the landing page and
-- the table of its waitlist, each with a state of its own. A class of an element is a Boolean.
pub mod Menu
pub mod Accordion
pub mod Motion
pub mod Urls
pub mod Signup
pub mod Table
mod Tests
