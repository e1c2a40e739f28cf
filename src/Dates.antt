-- ===== src/Dates.antt =====
-- common/date/kst-date.ts: the calendar dates and clock times of the Korean time zone.
-- An instant is its number of milliseconds from 0001-01-01T00:00Z on (`Date` counts from 1970, and
-- the code only compares instants, takes differences and reads calendar fields). A calendar date
-- is a record of three numbers; what the code keeps as `YYYY-MM-DD` text, or as a `@db.Date` at
-- UTC midnight, is the number of that day, which `Dates.Civil` shows to be the same in order.
pub mod Civil
pub mod Kst
mod Tests
