-- ===== src/Native.antt =====
-- The compiled extension `_opensomeip`, as the Python code sees it: the calls that the code makes on
-- its objects, and what each call returns. The extension is not part of the package; it is a
-- parameter of the model, any function from the calls made so far and the present call to a result.
pub mod Calls
pub mod Run
pub mod Within
