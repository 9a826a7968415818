-- ===== src/Client/Fragments/Placement.antt =====
-- Where a changed fragment and a read look for nodes.
