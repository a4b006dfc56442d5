-- ===== src/Tests.antt =====
-- Runs of the model on small inputs, and instances of the theorems.
mod FileTests
mod XmlTests
mod ZipTests
mod EntryTests
mod RomTests
mod ScanTests
mod ReadTests
mod GameTests
mod TextTests
